-- ===== src/Download/Endpoint.antt =====
-- download/download.go: the endpoint that a key of the options stands for.
use proxy_speedtest.Prelude.{ℕ, Bool, true, false, List, [], ◌∷◌, if◌then◌else◌}
use proxy_speedtest.Text.{Str, str, eq_str}

abbrev pub cloudflare_link : Str
cloudflare_link = str "https://speed.cloudflare.com/__down?bytes=10000000"

abbrev pub hetzner_de : Str
hetzner_de = str "https://fsn1-speed.hetzner.com/1GB.bin"

abbrev pub hetzner_us : Str
hetzner_us = str "https://ash-speed.hetzner.com/1GB.bin"

abbrev pub linode_jp : Str
linode_jp = str "https://speedtest.tokyo2.linode.com/100MB-tokyo2.bin"

abbrev pub vultr_sg : Str
vultr_sg = str "https://sgp-ping.vultr.com/vultr.com.100MB.bin"

abbrev pub ovh : Str
ovh = str "https://proof.ovh.net/files/1Gb.dat"

abbrev pub data_packet_us : Str
data_packet_us = str "http://lax.download.datapacket.com/100mb.bin"

abbrev pub huawei_cn : Str
huawei_cn =
    str "https://mirrors.huaweicloud.com/ubuntu-releases/bionic/ubuntu-18.04.6-desktop-amd64.iso"

abbrev pub worker_down_default : Str
worker_down_default = str "https://cf-sp.orbitintel.com/__down?bytes=524288000"

abbrev pub cloudflare_up_link : Str
cloudflare_up_link = str "https://speed.cloudflare.com/__up"

abbrev pub dlp_test_up_link : Str
dlp_test_up_link = str "https://dlptest.com/api/http-post/"

abbrev pub worker_up_default : Str
worker_up_default = str "https://cf-sp.orbitintel.com/__up"

abbrev pub cdn_up_default : Str
cdn_up_default = str "https://oassets.orbitfin.ai/filing-reports/speedtest-probe.bin"

-- `UploadProfile`
pub record UploadProfile : Type 0 where
  pub method : Str
  pub content_sha256 : Bool
  pub acl : Str
  pub chunk_bytes : ℕ

-- `GetUploadProfile`
unfoldable pub get_upload_profile : Str → UploadProfile
get_upload_profile size =
    if eq_str size (str "cdn")
    then record {
      method = str "PUT";
      content_sha256 = true;
      acl = str "bucket-owner-full-control";
      chunk_bytes = 0;
    }
    else record { method = str "POST"; content_sha256 = false; acl = []; chunk_bytes = 0 }

-- The switch on a key: the first entry of the key, or the default.
unfoldable pub switch : List (Str × Str) → Str → Str → Str
switch [] default key = default
switch ((k, url) ∷ cases) default key = if eq_str key k then url else switch cases default key

abbrev pub download_urls : List (Str × Str)
download_urls =
    (str "cloudflare", cloudflare_link)
    ∷ (str "hetzner-de", hetzner_de)
    ∷ (str "hetzner-us", hetzner_us)
    ∷ (str "linode-jp", linode_jp)
    ∷ (str "vultr-sg", vultr_sg)
    ∷ (str "ovh-eu", ovh)
    ∷ (str "datapacket-us", data_packet_us)
    ∷ (str "huawei-cn", huawei_cn)
    ∷ (str "worker", worker_down_default)
    ∷ []

-- `GetDownloadURL`
unfoldable pub get_download_url : Str → Str → Str
get_download_url size custom =
    if eq_str custom [] then switch download_urls cloudflare_link size else custom

abbrev pub upload_urls : List (Str × Str)
upload_urls =
    (str "cloudflare", cloudflare_up_link)
    ∷ (str "dlptest", dlp_test_up_link)
    ∷ (str "worker", worker_up_default)
    ∷ (str "cdn", cdn_up_default)
    ∷ []

-- `GetUploadURL`
unfoldable pub get_upload_url : Str → Str → Str
get_upload_url size custom =
    if eq_str custom [] then switch upload_urls cloudflare_up_link size else custom
