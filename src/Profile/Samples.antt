-- ===== src/Profile/Samples.antt =====
-- A run's options, and a network that answers the same to every test.
use proxy_speedtest.Prelude.{ℕ, true, false, List, [], ◌∷◌, none, some}
use proxy_speedtest.Prelude.Int.{pos, negsuc}
use proxy_speedtest.GoLib.{GoLib}
use proxy_speedtest.Text.{Str, str}
use proxy_speedtest.Message.{Formats}
use proxy_speedtest.Profile.{ProfileTestOptions}
use proxy_speedtest.Profile.Phase.{Event, sample, started}
use proxy_speedtest.Profile.One.{Network}

abbrev pub go : GoLib ℕ
go = record {
  parse_url = λ s. none;
  user_string = λ i. i.username;
  query_unescape = some;
  split_host_port = λ _. none;
  base64 = λ _ s. none;
  hex = λ _. none;
  vmess_json = λ _. none;
  float_u16 = λ n. 0;
  float_int = pos;
  float_byte = λ n. 0;
  clash_yaml = λ _. none;
  http_get = λ _. none;
  stat = λ _. false;
  read_file = λ _. none;
}

abbrev pub plain_digits : Formats
plain_digits = record { small = λ n. []; large = λ b d e. [] }

abbrev pub options : List ℕ → List Str → ProfileTestOptions
options test_ids links = record {
  group_name = str "Default";
  subscriptions = [];
  concurrency = pos 2;
  test_mode = pos 2;
  timeout = pos 8;
  links = links;
  subscription = [];
  threads = pos 1;
  upload_size = str "cloudflare";
  direct_mode = true;
  speed_test_mode = str "all";
  test_ids = test_ids;
  download_size = str "cloudflare";
  download_url = [];
  upload_enable = true;
  upload_url = [];
  download_headers = [];
  upload_headers = [];
}

abbrev pub samples : List Event
samples = started 100 ∷ sample (pos 30) 1100 ∷ sample (pos 50) 2100 ∷ sample (negsuc 0) 2200 ∷ []

-- Every probe takes 20 ms, and every transfer gives the samples.
abbrev pub network : ℕ → Network
network i = record {
  probe = λ p. (pos 20, false);
  transfer = λ r. record { start = 0; events = samples; speed = pos 80 };
  stopped = false;
}

abbrev pub direct : Str
direct = str "direct://"
