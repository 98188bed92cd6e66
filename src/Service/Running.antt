-- ===== src/Service/Running.antt =====
-- What the server answers while the updater's thread runs.
use mathlib.Core.List.{Memᴰ}
use a_healthy_dns.Base.{
  ℕ, ◌≡◌, ◌≢◌, subst, ◌∙◌, true, false, some, List, All-mem, arith, Result, ok,
}
use a_healthy_dns.Base.Int.{ℤ}
use a_healthy_dns.Dns.Names.{Names, NamesLaws}
use a_healthy_dns.Dns.Rdatasets.{Rdatasets, RdatasetsLaws, a_type, any_type}
use a_healthy_dns.Dns.Zones.{Zones, ZonesLaws}
use a_healthy_dns.Dns.Messages.{Question}
use a_healthy_dns.Unicode.{Unicode, AsciiLaws}
use a_healthy_dns.Records.Dnssec.{RrSigKey}
use a_healthy_dns.Records.HealthyRecord.{AHealthyRecord}
use a_healthy_dns.Records.ZoneOrigins.{ZoneOrigins, origin_for}
use a_healthy_dns.Updater.Rebuild.Committed.{IsUnnamed}
use a_healthy_dns.Updater.Rebuild.Contents.{Keeps}
use a_healthy_dns.Updater.Current.{IsSound, IsCurrent}
use a_healthy_dns.Threaded.{is_alive, ThreadedUpdater, start, Run}
use a_healthy_dns.Threaded.Serving.{start-Run-IsServing}
use a_healthy_dns.Handler.Outcome.{classify_query}
use a_healthy_dns.Handler.Outcome.Shape.{classify_query-Verdict}
use a_healthy_dns.Handler.Outcome.Found.{HasNoAnswer, Verdict-empty}
use a_healthy_dns.Service.Answers.{AsksFor, IsAnswered, held-IsAnswered}

module _ {names : Names} {Key : Type 0} {rdatasets : Rdatasets} (zones : Zones names rdatasets)
    (name_laws : NamesLaws names) {origin : names.Name} (laws : ZonesLaws zones origin)
    (set_laws : RdatasetsLaws rdatasets) (sign : zones.Txn → RrSigKey Key → Result zones.Txn)
    (keeps : Keeps zones name_laws laws set_laws sign) (u : Unicode) (ascii : AsciiLaws u)
    (s t v : ThreadedUpdater names Key rdatasets zones) (readings rest : List ℕ) (now : ℤ)
    (idle : is_alive s.updater_thread ≡ false)
    (sound : IsSound zones name_laws laws set_laws s.updater)
    (started : start names Key rdatasets zones sign s readings now ≡ ok (some (t, rest)))
    (run : Run names Key rdatasets zones sign u t v)
    (alive : is_alive v.updater_thread ≡ true) where
  open names use {Name, is_absolute, relativize as relative_to}

  running : IsCurrent zones name_laws laws set_laws v.updater
  running =
      let serving =
        start-Run-IsServing zones name_laws laws set_laws sign keeps u ascii s t v readings rest now
          idle sound started run in
      subst (IsCurrent zones name_laws laws set_laws) (serving.alive alive) serving.current

  -- For an updater with an NS set and well-formed records of different names, and a signer that keeps
  -- the A, NS and SOA sets: after a `start` that returns, as long as the thread is alive, whatever it
  -- and a call of `stop` have done, a question for the addresses of a record of the updater, by its
  -- name in any of the configured zones, gets an answer with just the addresses that the updater
  -- holds healthy and the time of A records, owned by the name that was asked for. If no address is
  -- healthy, the outcome has an empty answer. Both are authoritative, and nothing is raised.
  pub classify_query-IsAnswered :
      (z : ZoneOrigins names) (x : Question names) (r : AHealthyRecord names)
      → Memᴰ r v.updater.a_recs
      → AsksFor origin z x r
      → IsAnswered set_laws v.updater.max_interval r x
          (classify_query names rdatasets zones x v.updater.zone z)
  classify_query-IsAnswered z x r m asks =
      held-IsAnswered zones name_laws laws set_laws v.updater.zone z x r asks v.updater.max_interval
        (All-mem _ v.updater.a_recs running.records m)

  -- For an updater with an NS set and well-formed records of different names, and a signer that keeps
  -- the A, NS and SOA sets: after a `start` that returns, as long as the thread is alive, a question
  -- for the addresses of an absolute name in a configured zone, at which the updater has no record,
  -- gets an authoritative outcome with an empty answer.
  pub classify_query-HasNoAnswer :
      (z : ZoneOrigins names) (x : Question names) (apex : Name)
      → is_absolute x.name ≡ true
      → x.rdtype ≡ a_type
      → origin_for names z x.name ≡ some apex
      → IsUnnamed Key zones name_laws laws set_laws (relative_to x.name apex) v.updater.a_recs
      → HasNoAnswer (classify_query names rdatasets zones x v.updater.zone z)
  classify_query-HasNoAnswer z x apex absolute rdtype lies unnamed =
      let zone = v.updater.zone in
      let name = relative_to x.name apex in
      let plain : x.rdtype ≢ any_type = omega (arith, rdtype) in
      Verdict-empty names rdatasets zones x apex name (zones.reader zone) (zones.rdclass zone) plain
        (λ n there.
          rw (laws.rdclass_in zone, rdtype)
            (laws.node_get (zones.reader zone) name n a_type there ∙ running.others name unnamed))
        (classify_query names rdatasets zones x zone z)
        (classify_query-Verdict names rdatasets zones x zone z apex absolute lies)
