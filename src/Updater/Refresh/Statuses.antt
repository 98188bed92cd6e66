-- ===== src/Updater/Refresh/Statuses.antt =====
-- What a round of health checks makes of the records.
use mathlib.Core.List.{Memᴰ}
use a_healthy_dns.Base.{
  ℕ, suc, ◌≤◌, ◌≡◌, ◌↔◌, refl, inl, inr, Bool, true, false, Option, none, some, List, [], ◌∷◌,
  arith, Bool-cases, All, All-of_mem, All-mem, ok,
}
use a_healthy_dns.Base.Int.{ℤ}
use a_healthy_dns.Dns.Names.{Names}
use a_healthy_dns.Unicode.{Unicode, AsciiLaws}
use a_healthy_dns.Tools.Clock.{can_create_connection}
use a_healthy_dns.Records.HealthyIp.{AHealthyIp}
use a_healthy_dns.Records.HealthyIp.Status.{IsWellFormed, updated_status_total}
use a_healthy_dns.Records.HealthyRecord.{AHealthyRecord, updated_ips}
use a_healthy_dns.Records.HealthyRecord.Sets.{IsWellFormedRecord, updated_ips-mem}
use a_healthy_dns.Updater.Refresh.{Environment, check_ip, refresh_ips, refresh_a_record}

module _ (u : Unicode) (laws : AsciiLaws u) (env : Environment) (connection_timeout : ℤ) where
  -- What the check at call `n` finds of an address: healthy without a port, and otherwise whether
  -- the call made the connection to the address and port.
  abbrev pub IsFound : ℕ → AHealthyIp → Option ℤ → Bool → Type 0
  IsFound n x none b = b ≡ true
  IsFound n x (some port) b = b ≡ can_create_connection (env.connect n x.ip port connection_timeout)

  -- The same address and port with the status that a check finds, made right after a test whether
  -- to abort, which said no.
  pub record IsChecked (x y : AHealthyIp) : Type 0 where
    pub ip : y.ip ≡ x.ip
    pub port : y.health_port ≡ x.health_port
    pub call : ℕ
    pub goes_on : env.should_abort call ≡ false
    pub status : IsFound (suc call) x x.health_port y.is_healthy

  abbrev pub AreChecked : List AHealthyIp → List AHealthyIp → Type 0
  AreChecked [] [] = Unit
  AreChecked [] (y ∷ ys) = ⊥
  AreChecked (x ∷ xs) [] = ⊥
  AreChecked (x ∷ xs) (y ∷ ys) = IsChecked x y × AreChecked xs ys

  found :
      (n : ℕ) (x : AHealthyIp) → IsFound n x x.health_port (check_ip u env connection_timeout n x).0
  unfolding check_ip
  found n x = go x.health_port refl
    where
      go :
          (p : Option ℤ)
          → x.health_port ≡ p
          → IsFound n x p (check_ip u env connection_timeout n x).0
      go none e = ground arith
      go (some port) e = ground arith

  -- A check makes the next call, or none.
  check_ip_le : (n : ℕ) (x : AHealthyIp) → n ≤ (check_ip u env connection_timeout n x).1
  unfolding check_ip
  check_ip_le n x = go x.health_port refl
    where
      go : (p : Option ℤ) → x.health_port ≡ p → n ≤ (check_ip u env connection_timeout n x).1
      go none e = rw e (omega arith)
      go (some port) e = rw e (omega arith)

  with_status :
      (x : AHealthyIp) (b : Bool) → IsWellFormed x → IsWellFormed (record x { is_healthy = b })
  with_status x b w = record { canonical = w.canonical; port = w.port }

  -- The last call before call `m`, from call `n` on, was a test that told the round to abort.
  pub record IsAborted (n m : ℕ) : Type 0 where
    pub call : ℕ
    pub last : m ≡ suc call
    pub later : n ≤ call
    pub told : env.should_abort call ≡ true

  pub IsAborted-before : (n n' m : ℕ) → n ≤ n' → IsAborted n' m → IsAborted n m
  IsAborted-before n n' m before a = record {
    call = a.call;
    last = a.last;
    later = omega (arith, a.later);
    told = a.told;
  }

  -- What the loop over the addresses from call `n` on gives when call `m` is the next: nothing
  -- where it is told to abort, or the list of the checked addresses.
  data IpsOutcome (n m : ℕ) (xs : List AHealthyIp) : Option (List AHealthyIp) → Type 0 where
    stopped : IsAborted n m → IpsOutcome n m xs none
    finished :
        (ys : List AHealthyIp)
        → n ≤ m
        → AreChecked xs ys
        → All IsWellFormed ys
        → IpsOutcome n m xs (some ys)

  abbrev IpsResult : ℕ → List AHealthyIp → Type 0
  IpsResult n xs =
      (o : Option (List AHealthyIp)) × (m : ℕ) × (refresh_ips u env connection_timeout n xs
        ≡ ok (o, m))
      × IpsOutcome n m xs o

  one_more :
      (n : ℕ) (x : AHealthyIp) (xs : List AHealthyIp) (o : Option (List AHealthyIp)) (m : ℕ)
      → IsWellFormed x
      → env.should_abort n ≡ false
      → refresh_ips u env connection_timeout (check_ip u env connection_timeout (suc n) x).1 xs
        ≡ ok (o, m)
      → IpsOutcome (check_ip u env connection_timeout (suc n) x).1 m xs o
      → IpsResult n (x ∷ xs)
  unfolding refresh_ips
  one_more n x xs o m w go_on e (stopped a) =
      let made = updated_status_total u laws x (check_ip u env connection_timeout (suc n) x).0 w in
      let before = check_ip_le (suc n) x in
      (none, m, ground arith, stopped (IsAborted-before n _ m (omega arith) a))
  one_more n x xs o m w go_on e (finished ys later checked good) =
      let c = check_ip u env connection_timeout (suc n) x in
      let y : AHealthyIp = record x { is_healthy = c.0 } in
      let made = updated_status_total u laws x c.0 w in
      let before = check_ip_le (suc n) x in
      (
        some (y ∷ ys),
        m,
        ground arith,
        finished (y ∷ ys) (omega arith)
            (
              record {
                ip = refl;
                port = refl;
                call = n;
                goes_on = go_on;
                status = found (suc n) x;
              },
              checked,
            )
            (with_status x c.0 w, good),
      )

  refresh_ips-IpsOutcome : (n : ℕ) (xs : List AHealthyIp) → All IsWellFormed xs → IpsResult n xs
  unfolding refresh_ips
  refresh_ips-IpsOutcome n [] w = (some [], n, refl, finished [] (omega arith) tt tt)
  refresh_ips-IpsOutcome n (x ∷ xs) w = elim (Bool-cases (env.should_abort n)) [
    | inl stop ↦ (
      none,
      suc n,
      ground arith,
      stopped (record { call = n; last = refl; later = omega arith; told = stop }),
    )
    | inr go_on ↦
        let (o, m, e, k) =
          refresh_ips-IpsOutcome (check_ip u env connection_timeout (suc n) x).1 xs w.1 in
        one_more n x xs o m w.0 go_on e k
  ]

  module _ (names : Names) where
    -- A record after a round: the old name, and just the checked addresses.
    pub record IsRefreshed (r r' : AHealthyRecord names) : Type 0 where
      pub subdomain : r'.subdomain ≡ r.subdomain
      pub checked_ips : List AHealthyIp
      pub checked : AreChecked r.healthy_ips checked_ips
      pub ips : (x : AHealthyIp) → Memᴰ x r'.healthy_ips ↔ Memᴰ x checked_ips
      pub well_formed : IsWellFormedRecord names r'

    of_checked :
        (r : AHealthyRecord names) (ys : List AHealthyIp)
        → AreChecked r.healthy_ips ys
        → All IsWellFormed ys
        → IsRefreshed r (updated_ips names r ys)
    of_checked r ys c g =
        let (name, m) = updated_ips-mem names r ys in
        record {
          subdomain = name;
          checked_ips = ys;
          checked = c;
          ips = m;
          well_formed =
              All-of_mem IsWellFormed (updated_ips names r ys).healthy_ips
                (λ x k. All-mem IsWellFormed ys g ((m x).0 k));
        }

    pub data RecordOutcome (n m : ℕ) (r : AHealthyRecord names)
        : Option (AHealthyRecord names) → Type 0 where
      record_stopped : IsAborted n m → RecordOutcome n m r none
      refreshed :
          (r' : AHealthyRecord names) → n ≤ m → IsRefreshed r r' → RecordOutcome n m r (some r')

    abbrev RecordResult : ℕ → AHealthyRecord names → Type 0
    RecordResult n r =
        (o : Option (AHealthyRecord names)) × (m : ℕ) × (refresh_a_record u env connection_timeout
            names n r
          ≡ ok (o, m))
        × RecordOutcome n m r o

    of_ips :
        (n : ℕ) (r : AHealthyRecord names) (o : Option (List AHealthyIp)) (m : ℕ)
        → refresh_ips u env connection_timeout n r.healthy_ips ≡ ok (o, m)
        → IpsOutcome n m r.healthy_ips o
        → RecordResult n r
    unfolding refresh_a_record
    of_ips n r o m e (stopped a) = (none, m, ground arith, record_stopped a)
    of_ips n r o m e (finished ys later c g) =
        (some (updated_ips names r ys), m, ground arith, refreshed _ later (of_checked r ys c g))

    pub refresh_a_record-RecordOutcome :
        (n : ℕ) (r : AHealthyRecord names) → IsWellFormedRecord names r → RecordResult n r
    refresh_a_record-RecordOutcome n r w =
        let (o, m, e, k) = refresh_ips-IpsOutcome n r.healthy_ips w in of_ips n r o m e k
