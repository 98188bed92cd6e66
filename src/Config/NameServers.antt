-- ===== src/Config/NameServers.antt =====
-- `_make_name_servers` against a description of what it accepts.
use a_healthy_dns.Base.{
  ◌≡◌, ◌↔◌, refl, sym, ap, ◌∙◌, inl, inr, none, some, List, [], ◌∷◌, ◌++◌, map, All, arith, ok,
  Option-cases, >>?-eq-some,
}
use a_healthy_dns.Base.Set.{frozenset}
use a_healthy_dns.Base.Text.{Text, text_eq, Lacks}
use a_healthy_dns.Json.{Value, Values, str, list, items_of}
use a_healthy_dns.Dns.Names.{Names}
use a_healthy_dns.Unicode.{Unicode}
use a_healthy_dns.Tools.Subdomain.Hostname.{IsHostname, is_valid_fqdn_iff, is_valid_fqdn_flag}
use a_healthy_dns.Config.{
  Args, Loading, abs_name_servers_of, first_and_set, name_servers_of, make_name_servers,
}

-- A host name with a dot in it.
abbrev pub IsFqdn : Text → Type 0
IsFqdn name = IsHostname name [] × (¬ Lacks b'.' name)

abbrev pub with_dot : Text → Text
with_dot name = name ++ b'.' ∷ []

-- What a list of full host names is read as.
pub record AreFqdns (vs : List Value) (names : List Text) : Type 0 where
  pub texts : vs ≡ map str names
  pub valid : All IsFqdn names

abs_name_servers_of-AreFqdns :
    (vs : List Value) (servers : List Text)
    → abs_name_servers_of vs ≡ some servers
    → (names : List Text) × AreFqdns vs names × (servers ≡ map with_dot names)
unfolding abs_name_servers_of
abs_name_servers_of-AreFqdns [] servers h = ([], record { texts = refl; valid = tt }, ground arith)
abs_name_servers_of-AreFqdns (v ∷ vs) servers h = elim (Option-cases (abs_name_servers_of vs)) [
  | inl e ↦ absurd (nothing e)
  | inr (rest, e) ↦
      let (name, is_text, valid) = is_valid_fqdn_flag v (ground arith) in
      let (names, are, same) = abs_name_servers_of-AreFqdns vs rest e in
      (
        name ∷ names,
        record {
          texts = ground (arith, is_text, are.texts);
          valid = ((is_valid_fqdn_iff name).0 valid, are.valid);
        },
        ground (arith, is_text, same),
      )
]
  where
    nothing : abs_name_servers_of vs ≡ none → ⊥
    nothing e = ground arith

abs_name_servers_of-map :
    (names : List Text)
    → All IsFqdn names
    → abs_name_servers_of (map str names) ≡ some (map with_dot names)
unfolding abs_name_servers_of
abs_name_servers_of-map [] h = refl
abs_name_servers_of-map (n ∷ names) h =
    rw ((is_valid_fqdn_iff n).1 h.0, abs_name_servers_of-map names h.1) refl

-- What name servers are made of: a first name and others, all full host names, which get a final dot.
pub record AreServers (v : Value) (primary : Text) (servers : List Text) : Type 0 where
  pub vs : Values
  pub is_list : v ≡ list vs
  pub first : Text
  pub rest : List Text
  pub fqdns : AreFqdns (items_of vs) (first ∷ rest)
  pub primary_eq : primary ≡ with_dot first
  pub servers_eq : servers ≡ frozenset text_eq (map with_dot (first ∷ rest))

of_list :
    (vs : Values) (names : List Text) (primary : Text) (servers : List Text)
    → AreFqdns (items_of vs) names
    → first_and_set (some (map with_dot names)) ≡ some (primary, servers)
    → AreServers (list vs) primary servers
unfolding first_and_set
of_list vs [] primary servers are h = cc
of_list vs (n ∷ names) primary servers are h = record {
  vs = vs;
  is_list = refl;
  first = n;
  rest = names;
  fqdns = are;
  primary_eq = ground arith;
  servers_eq = ground arith;
}

name_servers_of-AreServers :
    (v : Value) (primary : Text) (servers : List Text)
    → name_servers_of v ≡ some (primary, servers)
    → AreServers v primary servers
unfolding name_servers_of first_and_set
name_servers_of-AreServers (list vs) primary servers h =
    elim (Option-cases (abs_name_servers_of (items_of vs))) [
      | inl e ↦ absurd (nothing e)
      | inr (abs, e) ↦
          let (names, are, same) = abs_name_servers_of-AreFqdns (items_of vs) abs e in
          of_list vs names primary servers are
            (ap first_and_set (ap some (sym same)) ∙ ap first_and_set (sym e) ∙ h)
    ]
  where
    nothing : abs_name_servers_of (items_of vs) ≡ none → ⊥
    nothing e = ground arith
name_servers_of-AreServers v primary servers h = cc

of_AreServers :
    (v : Value) (primary : Text) (servers : List Text)
    → AreServers v primary servers
    → name_servers_of v ≡ some (primary, servers)
unfolding name_servers_of first_and_set
of_AreServers v primary servers are =
    rw
      (
        are.is_list,
        are.fqdns.texts,
        abs_name_servers_of-map (are.first ∷ are.rest) are.fqdns.valid,
        are.primary_eq,
        are.servers_eq,
      )
      refl

module _ (names : Names) (u : Unicode) (loading : Loading) (args : Args) where
  -- Name servers are accepted exactly when the argument is a JSON list, not empty, of host names with
  -- a dot in them; the primary one is then the first of the list, and the set holds each name of the
  -- list, all with a final dot.
  pub make_name_servers_iff :
      (primary : Text) (servers : List Text)
      → (make_name_servers names u loading args ≡ ok (some (primary, servers))) ↔ (
          (v : Value) × (loading.loads args.name_servers ≡ ok (some v))
          × AreServers v primary servers)
  unfolding make_name_servers
  make_name_servers_iff primary servers = (
    λ h.
        let (v, read, rest) = >>?-eq-some (loading.loads args.name_servers) _ h in
        (v, read, name_servers_of-AreServers v primary servers (ground arith)),
    λ (v, read, are). rw (read, of_AreServers v primary servers are) refl,
  )
