-- ===== src/Dns/Names.antt =====
-- `dns.name`: names and the operations on them that the source calls.
pub mod Sample
use a_healthy_dns.Base.{ℕ, ◌≤◌, ◌≡◌, Bool, true, false, Option, some}
use a_healthy_dns.Base.Text.{Text}
use a_healthy_dns.Base.Set.Laws.{IsEquality}

-- `from_text` is `dns.name.from_text(text, origin=…)`, and `none` where it raises. `to_host` is
-- `to_text(omit_final_dot=True)`, and `label_count` is `len`.
pub record Names : Type 1 where
  pub Name : Type 0
  pub name_eq : Name → Name → Bool
  pub label_count : Name → ℕ
  pub to_text : Name → Text
  pub to_host : Name → Text
  pub from_text : Text → Name → Option Name
  pub root : Name
  pub empty : Name
  pub is_absolute : Name → Bool
  pub is_subdomain : Name → Name → Bool
  pub relativize : Name → Name → Name

-- Two names stand for the same node of a zone with this origin: they are equal, once written relative
-- to the origin.
abbrev pub same_owner : (names : Names) → names.Name → names.Name → names.Name → Bool
same_owner names origin a b = names.name_eq (names.relativize a origin) (names.relativize b origin)

-- Names are compared by `__eq__`, and `len` and the second argument of `is_subdomain` do not tell
-- equal names apart.
pub record NamesLaws (names : Names) : Type 0 where
  pub equality : IsEquality names.name_eq
  pub count_eq :
      (a b : names.Name) → names.name_eq a b ≡ true → names.label_count a ≡ names.label_count b
  pub subdomain_eq :
      (a b c : names.Name)
      → names.name_eq b c ≡ true
      → names.is_subdomain a b ≡ true
      → names.is_subdomain a c ≡ true
