-- ===== src/Config/Tests.antt =====
-- The configuration of a small server.
use a_healthy_dns.Base.{
  ◌≡◌, ◌↔◌, refl, [], ◌∷◌, some, ok, Returns, if◌then◌else◌, Bool, true, false, Result,
}
use a_healthy_dns.Base.Text.{Text, codes, text_eq}
use a_healthy_dns.Json.{Value}
use a_healthy_dns.Unicode.{ascii_unicode, ascii_unicode-AsciiLaws}
use a_healthy_dns.Dns.Names.Sample.{sample_names, sample_names-NamesLaws}
use a_healthy_dns.Config.{make_name_servers, make_config}
use a_healthy_dns.Config.NameServers.{AreServers, make_name_servers_iff}
use a_healthy_dns.Config.Accepted.{IsValid, make_config-IsValid}
use a_healthy_dns.Config.Returns.{make_config-Returns}
use a_healthy_dns.Config.Sample.{sample_loading, sample_args, sample_config, sample_accepted}

make_config-IsValid_example :
    IsValid sample_names sample_names-NamesLaws ascii_unicode ascii_unicode-AsciiLaws sample_loading
      sample_args sample_config
make_config-IsValid_example =
    make_config-IsValid sample_names sample_names-NamesLaws ascii_unicode ascii_unicode-AsciiLaws
      sample_loading sample_args sample_config sample_accepted

if_Returns :
    {A : Type 0} (b : Bool) (r s : Result A) → Returns r → Returns s → Returns (if b then r else s)
if_Returns true r s h k = h
if_Returns false r s h k = k

sample_loads : (t : Text) → Returns (sample_loading.loads t)
sample_loads t =
    if_Returns (text_eq t (codes "[]")) _ _ (_, refl)
      (if_Returns (text_eq t (codes "resolutions")) _ _ (_, refl)
        (if_Returns (text_eq t (codes "servers")) _ _ (_, refl) (_, refl)))

make_config-Returns_example :
    Returns (make_config sample_names ascii_unicode sample_loading sample_args)
make_config-Returns_example =
    make_config-Returns sample_names ascii_unicode sample_loading sample_args sample_loads
      (λ t h. (_, refl)) (λ origin t h. (_, refl))

make_name_servers_iff_example :
    (make_name_servers sample_names ascii_unicode sample_loading sample_args
      ≡ ok (some (codes "ns1.example.net.", codes "ns1.example.net." ∷ [])))
    ↔ ((v : Value) × (sample_loading.loads sample_args.name_servers ≡ ok (some v))
        × AreServers v (codes "ns1.example.net.") (codes "ns1.example.net." ∷ []))
make_name_servers_iff_example =
    make_name_servers_iff sample_names ascii_unicode sample_loading sample_args
      (codes "ns1.example.net.") (codes "ns1.example.net." ∷ [])
