-- ===== src/Threaded/Serving.antt =====
-- What the zone holds while the thread runs.
use a_healthy_dns.Base.{
  ℕ, ◌≡◌, refl, sym, ap, subst, ◌∙◌, true, false, Option, none, some, List, arith, Result, ok,
  ◌>>=◌, >>=-eq-ok,
}
use a_healthy_dns.Base.Int.{ℤ}
use a_healthy_dns.Dns.Names.{Names, NamesLaws}
use a_healthy_dns.Dns.Rdatasets.{Rdatasets, RdatasetsLaws}
use a_healthy_dns.Dns.Zones.{Zones, ZonesLaws}
use a_healthy_dns.Unicode.{Unicode, AsciiLaws}
use a_healthy_dns.Records.Dnssec.{RrSigKey}
use a_healthy_dns.Updater.State.{Updater}
use a_healthy_dns.Updater.Rebuild.{initialize_zone}
use a_healthy_dns.Updater.Rebuild.Contents.{Keeps}
use a_healthy_dns.Updater.Current.{IsSound, IsCurrent, initialize_zone-IsCurrent}
use a_healthy_dns.Updater.Current.Renewed.{update-IsCurrent}
use a_healthy_dns.Threaded.{
  is_alive, ThreadedUpdater, launched, start, LoopStep, tested, updated, crashed, woken, Step,
  looped, stopping, Run, nothing, then_step,
}

module _ {names : Names} {Key : Type 0} {rdatasets : Rdatasets} (zones : Zones names rdatasets)
    (name_laws : NamesLaws names) {origin : names.Name} (laws : ZonesLaws zones origin)
    (set_laws : RdatasetsLaws rdatasets) (sign : zones.Txn → RrSigKey Key → Result zones.Txn)
    (keeps : Keeps zones name_laws laws set_laws sign) (u : Unicode) (ascii : AsciiLaws u) where
  -- The zone is that of an updater for which it is current: the updater of the thread, unless an
  -- exception has ended the thread.
  pub record IsServing (s : ThreadedUpdater names Key rdatasets zones) : Type 0 where
    pub last : Updater names Key rdatasets zones
    pub sound : IsSound zones name_laws laws set_laws last
    pub current : IsCurrent zones name_laws laws set_laws last
    pub zone_eq : last.zone ≡ s.updater.zone
    pub alive : is_alive s.updater_thread ≡ true → last ≡ s.updater

  loop_step-IsServing :
      (s t : ThreadedUpdater names Key rdatasets zones)
      → LoopStep names Key rdatasets zones sign u s t
      → IsServing s
      → IsServing t
  unfolding is_alive
  loop_step-IsServing s _ (tested p) v = record {
    last = v.last;
    sound = v.sound;
    current = v.current;
    zone_eq = v.zone_eq;
    alive = λ h. v.alive (rw p refl);
  }
  loop_step-IsServing s _ (woken p) v = record {
    last = v.last;
    sound = v.sound;
    current = v.current;
    zone_eq = v.zone_eq;
    alive = λ h. v.alive (rw p refl);
  }
  loop_step-IsServing s _ (crashed env n readings now e left p raises zone) v = record {
    last = v.last;
    sound = v.sound;
    current = v.current;
    zone_eq = v.zone_eq ∙ sym zone;
    alive = λ h. cc;
  }
  loop_step-IsServing s _ (updated env n readings rest now updater p returns) v =
      let same : v.last ≡ s.updater = v.alive (rw p refl) in
      let (sound, current) =
        update-IsCurrent zones name_laws laws set_laws sign keeps u ascii env n s.updater updater
          readings rest now (subst (IsSound zones name_laws laws set_laws) same v.sound)
          (subst (IsCurrent zones name_laws laws set_laws) same v.current) returns in
      record { last = updater; sound = sound; current = current; zone_eq = refl; alive = λ h. refl }

  Step-IsServing :
      (s t : ThreadedUpdater names Key rdatasets zones)
      → Step names Key rdatasets zones sign u s t
      → IsServing s
      → IsServing t
  Step-IsServing s t (looped l) v = loop_step-IsServing s t l v
  Step-IsServing s _ (stopping h) v = record {
    last = v.last;
    sound = v.sound;
    current = v.current;
    zone_eq = v.zone_eq;
    alive = v.alive;
  }

  Run-IsServing :
      (s t : ThreadedUpdater names Key rdatasets zones)
      → Run names Key rdatasets zones sign u s t
      → IsServing s
      → IsServing t
  Run-IsServing s _ nothing v = v
  Run-IsServing s t (then_step {s = r} more one) v =
      Step-IsServing r t one (Run-IsServing s r more v)

  start-IsServing :
      (s t : ThreadedUpdater names Key rdatasets zones) (readings rest : List ℕ) (now : ℤ)
      → is_alive s.updater_thread ≡ false
      → IsSound zones name_laws laws set_laws s.updater
      → start names Key rdatasets zones sign s readings now ≡ ok (some (t, rest))
      → IsServing t
  unfolding start launched
  start-IsServing s t readings rest now h sound e =
      let e' : (initialize_zone names Key rdatasets zones sign s.updater readings now >>= λ built.
      ok (launched names Key rdatasets zones sign s built))
          ≡ ok (some (t, rest)) =
        ground arith in
      let (built, made, e'') =
        >>=-eq-ok (initialize_zone names Key rdatasets zones sign s.updater readings now) _ e' in
      go built made e''
    where
      go :
          (built : Option (Updater names Key rdatasets zones × List ℕ))
          → initialize_zone names Key rdatasets zones sign s.updater readings now ≡ ok built
          → ok (launched names Key rdatasets zones sign s built) ≡ ok (some (t, rest))
          → IsServing t
      go none made k = cc
      go (some (updater, left)) made k =
          let (sound', current) =
            initialize_zone-IsCurrent zones name_laws laws set_laws sign keeps s.updater readings
              now updater left sound made in
          let same : updater ≡ t.updater = ground arith in
          record {
            last = updater;
            sound = sound';
            current = current;
            zone_eq = ap (λ (v : Updater names Key rdatasets zones). v.zone) same;
            alive = λ h. same;
          }

  -- For an updater with an NS set and well-formed records of different names, and a signer that keeps
  -- the A, NS and SOA sets: from a `start` that returns on, whatever the thread and a call of `stop`
  -- do, the zone is current for the records of an updater with such records. That is the updater of
  -- the thread as long as the thread is alive.
  pub start-Run-IsServing :
      (s t v : ThreadedUpdater names Key rdatasets zones) (readings rest : List ℕ) (now : ℤ)
      → is_alive s.updater_thread ≡ false
      → IsSound zones name_laws laws set_laws s.updater
      → start names Key rdatasets zones sign s readings now ≡ ok (some (t, rest))
      → Run names Key rdatasets zones sign u t v
      → IsServing v
  start-Run-IsServing s t v readings rest now h sound e run =
      Run-IsServing t v run (start-IsServing s t readings rest now h sound e)
