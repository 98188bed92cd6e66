-- ===== src/Updater/Rebuild/Triggers.antt =====
-- When `update` rebuilds the zone.
use a_healthy_dns.Base.{
  ℕ, ◌≡◌, ◌⊎◌, ◌↔◌, refl, inl, inr, Bool, true, false, not, ◌||◌, Option, none, some, List, arith,
  All, Result, ok, if◌then◌else◌, Bool-cases,
}
use a_healthy_dns.Base.Int.{ℤ, ◌≤ℤ◌}
use a_healthy_dns.Dns.Names.{Names}
use a_healthy_dns.Dns.Rdatasets.{Rdatasets}
use a_healthy_dns.Dns.Zones.{Zones}
use a_healthy_dns.Unicode.{Unicode, AsciiLaws}
use a_healthy_dns.Records.Dnssec.{RrSigKey}
use a_healthy_dns.Records.HealthyRecord.{AHealthyRecord}
use a_healthy_dns.Records.HealthyRecord.Sets.{IsWellFormedRecord}
use a_healthy_dns.Updater.State.{Updater, RrSigAction, no_changes, changes, aborted}
use a_healthy_dns.Updater.Refresh.{Environment, refresh_a_recs}
use a_healthy_dns.Updater.Refresh.Statuses.{IsAborted}
use a_healthy_dns.Updater.Refresh.Rounds.{AreRefreshed, same_ips, refresh_a_recs-Round}
use a_healthy_dns.Updater.Rebuild.{
  initialize_zone, needs_update, after_refresh, update, is_zone_sign_near_to_expire,
}

module _ {names : Names} {Key : Type 0} {rdatasets : Rdatasets} (zones : Zones names rdatasets)
    (sign : zones.Txn → RrSigKey Key → Result zones.Txn) where
  abbrev State : Type 0
  State = Updater names Key rdatasets zones

  -- The signatures are due: the zone is signed, and the time to sign again has come.
  abbrev pub IsDue : Option (RrSigAction names Key rdatasets zones) → ℤ → Type 0
  IsDue none now = ⊥
  IsDue (some action) now = action.resign ≤ℤ now

  near_iff :
      (self : State) (now : ℤ)
      → (is_zone_sign_near_to_expire names Key rdatasets zones sign self now ≡ true)
        ↔ IsDue self.rrsig_action now
  unfolding is_zone_sign_near_to_expire
  near_iff self now = go self.rrsig_action refl
    where
      go :
          (o : Option (RrSigAction names Key rdatasets zones))
          → self.rrsig_action ≡ o
          → (is_zone_sign_near_to_expire names Key rdatasets zones sign self now ≡ true)
            ↔ IsDue o now
      go none e = ((λ h. ground arith), λ k. absurd k)
      go (some action) e = ((λ h. ground arith), λ k. ground arith)

  -- Why the zone is rebuilt with the records `rs'`: one of them has changed, the signatures are due,
  -- or the zone has never been built.
  abbrev pub IsNeeded : State → List (AHealthyRecord names) → ℤ → Type 0
  IsNeeded self rs' now =
      (same_ips names self.a_recs rs' ≡ false)
      ⊎ IsDue self.rrsig_action now
      ⊎ (self.is_zone_recreated_at_least_once ≡ false)

  module _ (u : Unicode) (laws : AsciiLaws u) (env : Environment) (n : ℕ) (self : State)
      (readings : List ℕ) (now : ℤ) where
    abbrev updated : Result (Option (State × List ℕ))
    updated = update names Key rdatasets zones sign u env n self readings now

    abbrev checked_with : List (AHealthyRecord names) → State
    checked_with rs' = record self { a_recs = rs' }

    module _ (rs' : List (AHealthyRecord names)) (m : ℕ)
        (e : refresh_a_recs u env self.connection_timeout names n self.a_recs
          ≡ ok (if same_ips names self.a_recs rs' then no_changes else changes, rs', m)) where
      decided :
          (b : Bool)
          → needs_update names Key rdatasets zones sign
              (checked_with rs')
              now
              (if same_ips names self.a_recs rs' then no_changes else changes)
            ≡ b
          → updated ≡ (
              if b
              then initialize_zone names Key rdatasets zones sign (checked_with rs') readings now
              else ok (some (checked_with rs', readings)))
      unfolding update after_refresh
      decided b d = rw e (ground arith)

    needs_update_iff :
        (rs' : List (AHealthyRecord names))
        → (needs_update names Key rdatasets zones sign
              (checked_with rs')
              now
              (if same_ips names self.a_recs rs' then no_changes else changes)
            ≡ true)
          ↔ IsNeeded self rs' now
    unfolding needs_update
    needs_update_iff rs' =
        let near = near_iff (checked_with rs') now in
        elim (Bool-cases (same_ips names self.a_recs rs')) [
          | inr differ ↦ ((λ h. inl differ), λ k. rw differ refl)
          | inl same ↦ (
            λ h. unchanged same (ground arith),
            λ k. elim k [
              | inl differ ↦ cc
              | inr (inl due) ↦ let d = near.1 due in rw (same, d) refl
              | inr (inr new) ↦ rw same (ground arith)
            ],
          )
        ]
      where
        unchanged :
            same_ips names self.a_recs rs' ≡ true
            → (is_zone_sign_near_to_expire names Key rdatasets zones sign (checked_with rs') now
                  || not self.is_zone_recreated_at_least_once
                ≡ true)
            → IsNeeded self rs' now
        unchanged same h =
            elim (Bool-cases
              (is_zone_sign_near_to_expire names Key rdatasets zones sign (checked_with rs') now)) [
                | inl due ↦ inr (inl ((near_iff (checked_with rs') now).0 due))
                | inr later ↦ inr (inr (ground arith))
              ]

    -- On well-formed records an update whose last call was a test that told it to abort changes
    -- nothing. Otherwise the records
    -- are the checked ones, and the zone is rebuilt with them exactly when a record has changed, the
    -- signatures are due, or the zone has never been built.
    pub update_lem :
        All (IsWellFormedRecord names) self.a_recs
        → ((m : ℕ) × IsAborted u laws env self.connection_timeout n m
            × (refresh_a_recs u env self.connection_timeout names n self.a_recs
                ≡ ok (aborted, self.a_recs, m))
            × (updated ≡ ok (some (self, readings))))
          ⊎ ((rs' : List (AHealthyRecord names)) × AreRefreshed u laws env self.connection_timeout
                names self.a_recs rs'
              × ((IsNeeded self rs' now
                    × (updated
                        ≡ initialize_zone names Key rdatasets zones sign
                            (checked_with rs')
                            readings
                            now))
                  ⊎ ((¬ IsNeeded self rs' now)
                      × (updated ≡ ok (some (checked_with rs', readings))))))
    unfolding update after_refresh
    update_lem w =
        elim (refresh_a_recs-Round u laws env self.connection_timeout names n self.a_recs w) [
          | inl (m, a, e) ↦ inl (m, a, e, rw e refl)
          | inr (rs', m, e, c) ↦ inr (
            rs',
            c,
            elim (Bool-cases (
                needs_update names Key rdatasets zones sign (checked_with rs') now
                  (if same_ips names self.a_recs rs' then no_changes else changes))) [
                    | inl y ↦ inl ((needs_update_iff rs').0 y, decided rs' m e true y)
                    | inr z ↦ inr (
                      λ k. absurd (not_both z ((needs_update_iff rs').1 k)),
                      decided rs' m e false z,
                    )
                  ],
          )
        ]
      where
        not_both : {b : Bool} → b ≡ false → b ≡ true → ⊥
        not_both h k = cc
