-- ===== src/Tools/Subdomain/Tests.antt =====
-- The host name tests at concrete texts.
use a_healthy_dns.Base.{◌≡◌, ◌↔◌, true, []}
use a_healthy_dns.Base.Text.{codes, Lacks}
use a_healthy_dns.Json.{str}
use a_healthy_dns.Tools.Subdomain.{is_valid_subdomain, is_valid_fqdn}
use a_healthy_dns.Tools.Subdomain.Hostname.{IsHostname, is_valid_subdomain_iff, is_valid_fqdn_iff}

is_valid_subdomain_iff_example :
    (is_valid_subdomain (str (codes "www")) (codes "example.com") ≡ (true, ""))
    ↔ IsHostname (codes "www") (codes "example.com")
is_valid_subdomain_iff_example = is_valid_subdomain_iff (codes "www") (codes "example.com")

is_valid_fqdn_iff_example :
    (is_valid_fqdn (str (codes "ns1.example.com")) ≡ (true, ""))
    ↔ (IsHostname (codes "ns1.example.com") [] × (¬ Lacks b'.' (codes "ns1.example.com")))
is_valid_fqdn_iff_example = is_valid_fqdn_iff (codes "ns1.example.com")
