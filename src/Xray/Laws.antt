-- ===== src/Xray/Laws.antt =====
-- What the JSON of a configuration holds.
use Prim.Native.String.{String}
use text.Mathlib.Text.{◌==◌}
use text.Mathlib.TextEquality.{eq_iff}
use proxy_speedtest.Prelude.{
  ◌≡◌, refl, ◌∙◌, Bool, true, false, Option, none, some, arith, if◌then◌else◌,
}
use proxy_speedtest.Text.{Str, str, eq_str}
use proxy_speedtest.Xray.Config.{StreamSettings, TcpSettings}
use proxy_speedtest.Xray.Json.{Json, string, obj, Fields, end, field, put, lookup}
use proxy_speedtest.Xray.Stream.{
  put_some, put_tcp, put_transport, put_security, build_stream, or_default, tls_json, reality_json,
}

pub lookup-put :
    (k j : String) (v : Json) (m : Fields)
    → lookup j (put k v m) ≡ (if k == j then some v else lookup j m)
unfolding lookup put
lookup-put k j v end = refl
lookup-put k j v (field i w m) =
    ground (arith, eq_iff k j, eq_iff i k, eq_iff i j, lookup-put k j v m)

-- The value under the key `j` is the same in both maps.
pub record Leaves (j : String) (m m' : Fields) : Type 0 where
  pub same : lookup j m' ≡ lookup j m

module _ {j : String} {m : Fields} where
  Leaves-refl : Leaves j m m
  Leaves-refl = record { same = refl }

  Leaves-put :
      (k : String) (v : Json) (m' : Fields)
      → (k == j) ≡ false
      → Leaves j m m'
      → Leaves j m (put k v m')
  Leaves-put k v m' h l = record { same = rw (lookup-put k j v m', h) l.same }

  Leaves-if :
      (b : Bool) (x y : Fields) → Leaves j m x → Leaves j m y → Leaves j m (if b then x else y)
  Leaves-if true x y h k = h
  Leaves-if false x y h k = k

  Leaves-put_some {ℓ} :
      {A : Type ℓ} (o : Option A) (k : String) (f : A → Fields) (m' : Fields)
      → (k == j) ≡ false
      → Leaves j m m'
      → Leaves j m (put_some o k f m')
  Leaves-put_some none k f m' h l = l
  Leaves-put_some (some a) k f m' h l = Leaves-put k (obj (f a)) m' h l

  Leaves-put_tcp :
      (o : Option TcpSettings) (m' : Fields)
      → ("tcpSettings" == j) ≡ false
      → Leaves j m m'
      → Leaves j m (put_tcp o m')
  Leaves-put_tcp none m' h l = l
  Leaves-put_tcp (some t) m' h l =
      Leaves-if (eq_str t.header_type (str "http")) _ m' (Leaves-put _ _ m' h l) l

-- A key that the switch on the network does not set.
pub record IsOther (j : String) : Type 0 where
  pub network : ("network" == j) ≡ false
  pub ws : ("wsSettings" == j) ≡ false
  pub grpc : ("grpcSettings" == j) ≡ false
  pub h2 : ("httpSettings" == j) ≡ false
  pub kcp : ("kcpSettings" == j) ≡ false
  pub http_upgrade : ("httpupgradeSettings" == j) ≡ false
  pub split_http : ("splithttpSettings" == j) ≡ false
  pub tcp : ("tcpSettings" == j) ≡ false

ruleset leaves_rules = (Leaves-refl, Leaves-put, Leaves-if, Leaves-put_some, Leaves-put_tcp)

pub Leaves-put_transport :
    {j : String}
    → IsOther j
    → (t : Str) (s : StreamSettings) (m : Fields) → Leaves j m (put_transport t s m)
unfolding put_transport
Leaves-put_transport h t s m = search leaves_rules depth 12

tls_key : IsOther "tlsSettings"
tls_key = record {
  network = refl;
  ws = refl;
  grpc = refl;
  h2 = refl;
  kcp = refl;
  http_upgrade = refl;
  split_http = refl;
  tcp = refl;
}

reality_key : IsOther "realitySettings"
reality_key = record {
  network = refl;
  ws = refl;
  grpc = refl;
  h2 = refl;
  kcp = refl;
  http_upgrade = refl;
  split_http = refl;
  tcp = refl;
}

abbrev pub settings_if {ℓ} : {A : Type ℓ} → Bool → Option A → (A → Fields) → Option Json
settings_if true (some a) f = some (obj (f a))
settings_if true none f = none
settings_if false o f = none

abbrev secured : Bool → Bool → StreamSettings → Json → Json → Fields
secured t r s n v =
    put_security r s.reality "realitySettings" reality_json
      (put_security t s.tls "tlsSettings" tls_json (field "network" n (field "security" v end)))

lookup-secured :
    (t r : Bool) (s : StreamSettings) (n v : Json)
    → (lookup "tlsSettings" (secured t r s n v) ≡ settings_if t s.tls tls_json)
      × (lookup "realitySettings" (secured t r s n v) ≡ settings_if r s.reality reality_json)
unfolding lookup put
lookup-secured t r s n v = ground arith

-- For every stream, whatever its network: the stream JSON has `tlsSettings` exactly where the
-- security (none if it is empty) is "tls" and the TLS settings are not nil, and `realitySettings`
-- exactly where it is "reality" and the Reality settings are not nil; each is the JSON of those
-- settings.
pub lookup-build_stream :
    (s : StreamSettings)
    → (lookup "tlsSettings" (build_stream s)
        ≡ settings_if (eq_str (or_default s.security (str "none")) (str "tls")) s.tls tls_json)
      × (lookup "realitySettings" (build_stream s)
          ≡ settings_if
              (eq_str (or_default s.security (str "none")) (str "reality"))
              s.reality
              reality_json)
unfolding build_stream
lookup-build_stream s =
    let both =
      lookup-secured (eq_str (or_default s.security (str "none")) (str "tls"))
        (eq_str (or_default s.security (str "none")) (str "reality")) s
        (string (or_default s.network (str "tcp"))) (string (or_default s.security (str "none"))) in
    (
      (Leaves-put_transport tls_key _ s _).same ∙ both.0,
      (Leaves-put_transport reality_key _ s _).same ∙ both.1,
    )
