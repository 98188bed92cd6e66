-- ===== src/Updater/Rebuild.antt =====
-- `initialize_zone` and `update`: rebuilding the zone in one transaction. Logging is left out.
pub mod Published
pub mod Committed
pub mod Contents
pub mod Returns
pub mod Triggers
use a_healthy_dns.Base.{
  ℕ, Bool, true, false, not, ◌||◌, Option, none, some, List, [], ◌∷◌, if◌then◌else◌, Result, ok,
  raised, ◌>>=◌,
}
use a_healthy_dns.Base.Int.{ℤ, leb_ℤ}
use a_healthy_dns.Dns.Names.{Names}
use a_healthy_dns.Dns.Rdatasets.{Rdatasets, Rdataset}
use a_healthy_dns.Dns.Zones.{Zones}
use a_healthy_dns.Unicode.{Unicode}
use a_healthy_dns.Records.Dnssec.{RrSigKey, next_rrsig_key}
use a_healthy_dns.Records.HealthyRecord.{AHealthyRecord, make_a_record}
use a_healthy_dns.Records.Soa.{SoaIterator, next_soa_record}
use a_healthy_dns.Updater.State.{
  Updater, RrSigAction, RefreshARecordsResult, no_changes, changes, aborted,
}
use a_healthy_dns.Updater.Refresh.{Environment, refresh_a_recs}

module _ (names : Names) (Key : Type 0) (rdatasets : Rdatasets)
    (zones : Zones names rdatasets) where
  open names use {Name, empty}
  open rdatasets use {Rdata}
  open zones use {Zone, Txn, reader, commit, iterate_names, delete, add}

  unfoldable pub delete_all : Txn → List Name → Txn
  delete_all txn [] = txn
  delete_all txn (name ∷ rest) = delete_all (delete txn name) rest

  unfoldable pub clear_zone : Txn → Txn
  unfolding delete_all
  clear_zone txn = delete_all txn (iterate_names txn)

  unfoldable pub add_if : Txn → Name → Option (Rdataset Rdata) → Result Txn
  add_if txn name none = ok txn
  add_if txn name (some dataset) = add txn name dataset

  unfoldable pub add_a_record_to_zone : ℤ → AHealthyRecord names → Txn → Result Txn
  unfolding add_if
  add_a_record_to_zone max_interval a_record txn = do
    dataset ← make_a_record names rdatasets max_interval a_record
    add_if txn a_record.subdomain dataset

  unfoldable pub add_a_records : ℤ → List (AHealthyRecord names) → Txn → Result Txn
  unfolding add_a_record_to_zone
  add_a_records max_interval [] txn = ok txn
  add_a_records max_interval (r ∷ rs) txn = do
    txn' ← add_a_record_to_zone max_interval r txn
    add_a_records max_interval rs txn'

  -- `_add_records_to_zone` from `next(self._soa_rec)` on.
  unfoldable pub add_soa_and_a_records :
      Updater names Key rdatasets zones
      → Txn
      → Option (Rdataset Rdata × SoaIterator names rdatasets × List ℕ)
      → Result (Option (Txn × SoaIterator names rdatasets × List ℕ))
  unfolding add_a_records
  add_soa_and_a_records self with_ns none = ok none
  add_soa_and_a_records self with_ns (some (soa, soa_rec, rest)) = do
    with_soa ← add with_ns empty soa
    full ← add_a_records self.max_interval self.a_recs with_soa
    ok (some (full, soa_rec, rest))

  -- `_add_records_to_zone`, with the state of the SOA generator and the readings that are left;
  -- nothing, where the readings run out while the generator waits.
  unfoldable pub add_records_to_zone :
      Updater names Key rdatasets zones
      → List ℕ
      → Txn
      → Result (Option (Txn × SoaIterator names rdatasets × List ℕ))
  unfolding add_soa_and_a_records
  add_records_to_zone self readings txn = do
    with_ns ← add txn empty self.ns_rec
    next ← next_soa_record names rdatasets self.soa_rec readings
    add_soa_and_a_records self with_ns next

  -- `dns.dnssec.sign_zone` writes signatures to the transaction.
  module _ (sign : Txn → RrSigKey Key → Result Txn) where
    unfoldable pub sign_with :
        ℤ
        → ℤ
        → Txn
        → Option (RrSigAction names Key rdatasets zones)
        → Result (Txn × Option (RrSigAction names Key rdatasets zones))
    sign_with max_interval now txn none = ok (txn, none)
    sign_with max_interval now txn (some action) =
        let ext_rrsig_key = next_rrsig_key Key max_interval action.key now in
        do
          signed ← sign txn ext_rrsig_key.key
          ok (signed, some (record { resign = ext_rrsig_key.resign; key = action.key }))

    -- `_sign_zone` at the time `now`
    unfoldable pub sign_zone :
        Updater names Key rdatasets zones
        → ℤ
        → Txn
        → Result (Txn × Option (RrSigAction names Key rdatasets zones))
    unfolding sign_with
    sign_zone self now txn = sign_with self.max_interval now txn self.rrsig_action

    unfoldable pub is_zone_sign_near_to_expire : Updater names Key rdatasets zones → ℤ → Bool
    is_zone_sign_near_to_expire self now = elim self.rrsig_action [
      | none ↦ false
      | some action ↦ leb_ℤ action.resign now
    ]

    -- `_sign_zone` and the end of `initialize_zone`, behind `_add_records_to_zone`.
    unfoldable pub sign_and_commit :
        Updater names Key rdatasets zones
        → ℤ
        → Option (Txn × SoaIterator names rdatasets × List ℕ)
        → Result (Option (Updater names Key rdatasets zones × List ℕ))
    unfolding sign_zone
    sign_and_commit self now none = ok none
    sign_and_commit self now (some (txn, soa_rec, rest)) = do
      signed ← sign_zone self now txn
      ok (
          some (
            record self {
              soa_rec = soa_rec;
              rrsig_action = signed.1;
              zone = commit self.zone signed.0;
              is_zone_recreated_at_least_once = true;
            },
            rest,
          ))

    -- `initialize_zone`. The transaction is committed at the end, and rolled back by an exception:
    -- a call that raises leaves the committed version as it was.
    unfoldable pub initialize_zone :
        Updater names Key rdatasets zones
        → List ℕ
        → ℤ
        → Result (Option (Updater names Key rdatasets zones × List ℕ))
    unfolding sign_and_commit add_records_to_zone clear_zone
    initialize_zone self readings now = do
      added ← add_records_to_zone self readings (clear_zone (reader self.zone))
      sign_and_commit self now added

    unfoldable pub needs_update :
        Updater names Key rdatasets zones → ℤ → RefreshARecordsResult → Bool
    needs_update self now changes = true
    needs_update self now result =
        is_zone_sign_near_to_expire self now || not self.is_zone_recreated_at_least_once

    -- `update` behind the refresh: `self` has the checked records.
    unfoldable pub after_refresh :
        Updater names Key rdatasets zones
        → List ℕ
        → ℤ
        → RefreshARecordsResult
        → Result (Option (Updater names Key rdatasets zones × List ℕ))
    unfolding needs_update
    after_refresh self readings now aborted = ok (some (self, readings))
    after_refresh self readings now result =
        if needs_update self now result
        then initialize_zone self readings now
        else ok (some (self, readings))

    -- `update`, whose calls to the environment begin at number `n`.
    unfoldable pub update :
        Unicode
        → Environment
        → ℕ
        → Updater names Key rdatasets zones
        → List ℕ
        → ℤ
        → Result (Option (Updater names Key rdatasets zones × List ℕ))
    unfolding after_refresh
    update u env n self readings now = do
      refreshed ← refresh_a_recs u env self.connection_timeout names n self.a_recs
      after_refresh (record self { a_recs = refreshed.1 }) readings now refreshed.0
