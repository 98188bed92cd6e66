-- ===== src/Config/Entries.antt =====
-- The records that `_make_a_records` makes of the entries of a dictionary.
use mathlib.Core.List.{Memᴰ}
use a_healthy_dns.Base.{
  ◌≡◌, ◌≢◌, ◌↔◌, refl, ap, subst, ◌∙◌, inl, inr, false, Option, none, some, List, [], ◌∷◌, All,
  All-of_mem, arith, ok, ◌>>=◌, Bool-cases, >>=-eq-ok, >>?-eq-some, caught, caught-eq-some,
}
use a_healthy_dns.Base.Set.{frozenset}
use a_healthy_dns.Base.Set.Elements.{frozenset-ne-nil}
use a_healthy_dns.Base.Text.{Text}
use a_healthy_dns.Json.{Value, str}
use a_healthy_dns.Unicode.{Unicode, AsciiLaws}
use a_healthy_dns.Dns.Names.{Names}
use a_healthy_dns.Tools.Subdomain.{is_valid_subdomain}
use a_healthy_dns.Tools.Subdomain.Hostname.{
  IsHostname, is_valid_subdomain_iff, is_valid_subdomain_flag,
}
use a_healthy_dns.Records.HealthyIp.{AHealthyIp, make_healthy_ip, healthy_ip_eq}
use a_healthy_dns.Records.HealthyRecord.{AHealthyRecord, make_healthy_record}
use a_healthy_dns.Records.HealthyRecord.Sets.{mem-frozenset_iff}
use a_healthy_dns.Records.ZoneOrigins.{or_raise}
use a_healthy_dns.Config.{ip_list_of, make_healthy_ips, record_of, make_healthy_a_record}
use a_healthy_dns.Config.Addresses.{IsFresh, make_healthy_ip-IsFresh, mem-make_healthy_ips_iff}

module _ (names : Names) (u : Unicode) (laws : AsciiLaws u) where
  open names use {Name, to_host, from_text}

  -- The record of an entry: its key is a host name below the origin and gives the name; its addresses
  -- are those that the values of its list give, with its port; they are unhealthy, and in normal
  -- form with a usable port unless they have a character outside ASCII.
  pub record IsMadeOf (origin : Name) (key : Text) (value : Value) (r : AHealthyRecord names)
      : Type 0 where
    pub hostname : IsHostname key (to_host origin)
    pub named : from_text key origin ≡ some r.subdomain
    pub ips : List Value
    pub health_port : Value
    pub read : ip_list_of names value ≡ some (ips, health_port)
    pub nonempty : r.healthy_ips ≢ []
    pub fresh : All IsFresh r.healthy_ips
    pub made :
        (x : AHealthyIp)
        → Memᴰ x r.healthy_ips
          ↔ ((v : Value) × Memᴰ v ips × (make_healthy_ip u v health_port false ≡ ok x))

  made_nonempty :
      (health_port v : Value) (vs : List Value) (xs : List AHealthyIp)
      → make_healthy_ips u health_port (v ∷ vs) ≡ ok xs
      → xs ≢ []
  unfolding make_healthy_ips
  made_nonempty health_port v vs xs e =
      let (y, made, e') = >>=-eq-ok (make_healthy_ip u v health_port false) _ e in
      let (ys, rest, e'') = >>=-eq-ok (make_healthy_ips u health_port vs) _ e' in
      let all_made : y ∷ ys ≡ xs = ground arith in λ h. let both : y ∷ ys ≡ [] = all_made ∙ h in cc

  of_ips :
      (origin : Name) (key : Text) (value : Value) (subdomain_name : Name) (ips : List Value)
      (health_port : Value) (r : AHealthyRecord names)
      → IsHostname key (to_host origin)
      → from_text key origin ≡ some subdomain_name
      → ip_list_of names value ≡ some (ips, health_port)
      → record_of names u subdomain_name (some (ips, health_port)) ≡ ok (some r)
      → IsMadeOf origin key value r
  unfolding record_of make_healthy_record
  of_ips origin key value subdomain_name [] health_port r host named read h = cc
  of_ips origin key value subdomain_name (v ∷ vs) health_port r host named read h =
      let (xs, made, h') = >>?-eq-some (caught (make_healthy_ips u health_port (v ∷ vs))) _ h in
      let all_made = caught-eq-some (make_healthy_ips u health_port (v ∷ vs)) made in
      let same_name : subdomain_name ≡ r.subdomain = ground arith in
      let same_ips : frozenset healthy_ip_eq xs ≡ r.healthy_ips = ground arith in
      let members = λ (x : AHealthyIp).
        let f = mem-frozenset_iff x xs in
        let m = mem-make_healthy_ips_iff u health_port (v ∷ vs) xs all_made x in
        subst
          (λ ys.
            Memᴰ x ys
            ↔ ((w : Value) × Memᴰ w (v ∷ vs) × (make_healthy_ip u w health_port false ≡ ok x)))
          same_ips ((λ k. m.0 (f.0 k)), λ k. f.1 (m.1 k)) in
      record {
        hostname = host;
        named = named ∙ ap some same_name;
        ips = v ∷ vs;
        health_port = health_port;
        read = read;
        nonempty =
            subst (λ ys. ys ≢ []) same_ips
              (frozenset-ne-nil healthy_ip_eq xs (made_nonempty health_port v vs xs all_made));
        fresh = All-of_mem IsFresh r.healthy_ips (λ x m.
            let (w, k, e) = (members x).0 m in make_healthy_ip-IsFresh u laws w health_port x e);
        made = members;
      }

  of_read :
      (origin : Name) (key : Text) (value : Value) (subdomain_name : Name)
      (read : Option (List Value × Value)) (r : AHealthyRecord names)
      → IsHostname key (to_host origin)
      → from_text key origin ≡ some subdomain_name
      → ip_list_of names value ≡ read
      → record_of names u subdomain_name read ≡ ok (some r)
      → IsMadeOf origin key value r
  of_read origin key value subdomain_name none r host named e h = unfold record_of in cc
  of_read origin key value subdomain_name (some (ips, port)) r host named e h =
      of_ips origin key value subdomain_name ips port r host named e h

  pub make_healthy_a_record-IsMadeOf :
      (origin : Name) (key : Text) (value : Value) (r : AHealthyRecord names)
      → make_healthy_a_record names u origin key value ≡ ok (some r)
      → IsMadeOf origin key value r
  unfolding make_healthy_a_record or_raise
  make_healthy_a_record-IsMadeOf origin key value r h =
      elim (Bool-cases (is_valid_subdomain (str key) (to_host origin)).0) [
        | inl e ↦
            let valid = is_valid_subdomain_flag key (to_host origin) e in
            let h' : (or_raise names (from_text key origin) >>= λ n.
            record_of names u n (ip_list_of names value))
                ≡ ok (some r) =
              ground arith in
            let (n, read, rest) = >>=-eq-ok (or_raise names (from_text key origin)) _ h' in
            of_read origin key value n (ip_list_of names value) r
              ((is_valid_subdomain_iff key (to_host origin)).0 valid) (named n read) refl rest
        | inr e ↦ absurd (refused e)
      ]
    where
      named :
          (n : Name) → or_raise names (from_text key origin) ≡ ok n → from_text key origin ≡ some n
      named n e = ground arith

      refused : (is_valid_subdomain (str key) (to_host origin)).0 ≡ false → ⊥
      refused e = ground arith
