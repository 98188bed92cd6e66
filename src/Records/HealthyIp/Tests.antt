-- ===== src/Records/HealthyIp/Tests.antt =====
-- A checked address and its changes of status.
use a_healthy_dns.Base.{◌≡◌, refl, true, false, ltb, ltb→lt, some, all_iff, arith, ok}
use a_healthy_dns.Base.Int.{pos}
use a_healthy_dns.Base.Text.{Text, codes, split, join, lstrip}
use a_healthy_dns.Json.{str, int}
use a_healthy_dns.Unicode.{ascii_unicode, ascii_unicode-AsciiLaws, isdigit, int_of}
use a_healthy_dns.Tools.Ip.{is_valid_ip, valid_parts, is_valid_port, normalize_ip}
use a_healthy_dns.Tools.Ip.Octet.{IsAscii}
use a_healthy_dns.Records.HealthyIp.{AHealthyIp, make_healthy_ip, updated_status, check_port}
use a_healthy_dns.Records.HealthyIp.Status.{
  IsWellFormed, make_healthy_ip-IsWellFormed, updated_status_total,
}

abbrev written : Text
written = codes "192.168.001.010"

abbrev web_server : AHealthyIp
web_server = record { ip = codes "192.168.1.10"; health_port = some (pos 443); is_healthy = false }

made : make_healthy_ip ascii_unicode (str written) (int (pos 443)) false ≡ ok web_server
unfolding make_healthy_ip is_valid_ip valid_parts is_valid_port isdigit int_of normalize_ip
    check_port split join lstrip
made = refl

written-IsAscii : IsAscii written
written-IsAscii =
    (all_iff (λ c. ltb c 128) (λ c. ((λ e. ltb→lt c 128 e), λ l. ground arith)) written).0 refl

make_healthy_ip-IsWellFormed_example :
    IsWellFormed web_server
    × (web_server.is_healthy ≡ false)
    × (web_server.ip ≡ normalize_ip written)
make_healthy_ip-IsWellFormed_example =
    make_healthy_ip-IsWellFormed ascii_unicode ascii_unicode-AsciiLaws written (int (pos 443)) false
      web_server written-IsAscii made

updated_status_total_example :
    updated_status ascii_unicode web_server true ≡ ok (record web_server { is_healthy = true })
updated_status_total_example =
    updated_status_total ascii_unicode ascii_unicode-AsciiLaws web_server true
      make_healthy_ip-IsWellFormed_example.0
