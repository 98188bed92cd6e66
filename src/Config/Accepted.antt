-- ===== src/Config/Accepted.antt =====
-- What `make_config` promises of a configuration that it returns.
use mathlib.Core.Option
use a_healthy_dns.Base.{
  ℕ, ◌≡◌, refl, subst, inl, inr, Option, none, some, List, [], ◌∷◌, arith, ok, Option-cases,
  >>?-eq-some, caught-eq-some,
}
use a_healthy_dns.Base.Text.{Text}
use a_healthy_dns.Json.{Value, Values, list, items_of}
use a_healthy_dns.Unicode.{Unicode, AsciiLaws}
use a_healthy_dns.Dns.Names.{Names, NamesLaws}
use a_healthy_dns.Records.ZoneOrigins.{ZoneOrigins, make_zone_origins}
use a_healthy_dns.Updater.State.{DnsServerConfig}
use a_healthy_dns.Config.{
  Args, Loading, PrivateKeyPair, zone_origins_of, make_config_zone_origins, make_a_records,
  make_name_servers, key_of, make_private_key, ext_private_key_of, make_config,
}
use a_healthy_dns.Config.NameServers.{AreServers, make_name_servers_iff}
use a_healthy_dns.Config.Records.{AreRecords, make_a_records-AreRecords}

module _ (names : Names) (name_laws : NamesLaws names) (u : Unicode) (laws : AsciiLaws u)
    (loading : Loading) where
  open loading use {loads, read_file, algorithm_from_text, from_pem, make_dnskey}

  abbrev Pair : Type 0
  Pair = PrivateKeyPair names u loading

  -- A key that is read, made and paired with its DNSKEY without an exception.
  pub record IsKeyOf (path : Text) (args : Args) (key : Pair) : Type 0 where
    pub pem : List ℕ
    pub read : read_file path ≡ some pem
    pub alg : loading.Algorithm
    pub known : algorithm_from_text args.priv_key_alg ≡ some alg
    pub loaded : from_pem alg pem ≡ some key.private_key
    pub paired : make_dnskey key.private_key alg ≡ some key.dnskey

  -- The key of a configuration: none without a path, and the key of the path with one.
  abbrev pub HasKey : Option Text → Args → Option Pair → Type 0
  HasKey none args key = key ≡ none
  HasKey (some []) args key = key ≡ none
  HasKey (some (c ∷ path)) args key = (k : Pair) × (key ≡ some k) × IsKeyOf (c ∷ path) args k

  bind_some :
      {A B : Type 0} (o : Option A) (f : A → Option B) (b : B)
      → Option.bind o f ≡ some b
      → (a : A) × (o ≡ some a) × (f a ≡ some b)
  unfolding Option.bind
  bind_some none f b h = cc
  bind_some (some a) f b h = (a, refl, h)

  key_of-IsKeyOf :
      (path : Text) (args : Args) (pem : List ℕ) (key : Pair)
      → read_file path ≡ some pem
      → key_of names u loading args pem ≡ some key
      → IsKeyOf path args key
  unfolding key_of
  key_of-IsKeyOf path args pem key read h =
      let (alg, known, h') = bind_some (algorithm_from_text args.priv_key_alg) _ key h in
      let (priv_key, loaded, h'') = bind_some (from_pem alg pem) _ key h' in
      let (dnskey, paired, same) = bind_some (make_dnskey priv_key alg) _ key h'' in
      let same_key : priv_key ≡ key.private_key = ground arith in
      let same_dnskey : dnskey ≡ key.dnskey = ground arith in
      record {
        pem = pem;
        read = read;
        alg = alg;
        known = known;
        loaded = ground arith;
        paired = ground arith;
      }

  make_private_key-IsKeyOf :
      (path : Text) (args : Args) (key : Pair)
      → make_private_key names u loading path args ≡ some key
      → IsKeyOf path args key
  unfolding make_private_key
  make_private_key-IsKeyOf path args key h = elim (Option-cases (read_file path)) [
    | inl e ↦ absurd (nothing e)
    | inr (pem, e) ↦ key_of-IsKeyOf path args pem key e (ground arith)
  ]
    where
      nothing : read_file path ≡ none → ⊥
      nothing e = ground arith

  ext_private_key_of-HasKey :
      (path : Option Text) (args : Args) (key : Option Pair)
      → ext_private_key_of names u loading path args ≡ some key
      → HasKey path args key
  unfolding ext_private_key_of
  ext_private_key_of-HasKey none args key h = ground arith
  ext_private_key_of-HasKey (some []) args key h = ground arith
  ext_private_key_of-HasKey (some (c ∷ path)) args key h =
      elim (Option-cases (make_private_key names u loading (c ∷ path) args)) [
        | inl e ↦ absurd (nothing e)
        | inr (k, e) ↦ (k, ground arith, make_private_key-IsKeyOf (c ∷ path) args k e)
      ]
    where
      nothing : make_private_key names u loading (c ∷ path) args ≡ none → ⊥
      nothing e = ground arith

  -- The zones of a hosted zone and a list of aliases.
  pub record AreZones (args : Args) (v : Value) (z : ZoneOrigins names) : Type 0 where
    pub aliases : Values
    pub is_list : v ≡ list aliases
    pub made : make_zone_origins names args.zone (items_of aliases) ≡ ok z

  zone_origins_of-AreZones :
      (args : Args) (v : Value) (z : ZoneOrigins names)
      → zone_origins_of names args.zone v ≡ ok (some z)
      → AreZones args v z
  unfolding zone_origins_of
  zone_origins_of-AreZones args (list vs) z h = record {
    aliases = vs;
    is_list = refl;
    made = caught-eq-some (make_zone_origins names args.zone (items_of vs)) h;
  }
  zone_origins_of-AreZones args v z h = cc

  -- Each part of a configuration is made of its argument.
  pub record IsValid (args : Args) (config : DnsServerConfig names Pair) : Type 0 where
    pub zones :
        (v : Value) × (loads args.alias_zones ≡ ok (some v)) × AreZones args v config.zone_origins
    pub records :
        (v : Value) × (loads args.resolutions ≡ ok (some v))
        × AreRecords names name_laws u laws config.zone_origins.primary v config.a_records
    pub servers :
        (v : Value) × (loads args.name_servers ≡ ok (some v))
        × AreServers v config.primary_name_server config.name_servers
    pub key : HasKey args.priv_key_path args config.ext_private_key

  -- A configuration that is returned has the zones of the hosted zone and the list of aliases; a
  -- non-empty set of records, one for each name, each made of an entry of the dictionary of
  -- resolutions, with a valid host name below the hosted zone and unhealthy addresses that are in
  -- normal form, with a usable port, unless they have a character outside ASCII; the name servers of
  -- the list, with the first as the primary one; and a key exactly when the path of one is given.
  pub make_config-IsValid :
      (args : Args) (config : DnsServerConfig names Pair)
      → make_config names u loading args ≡ ok (some config)
      → IsValid args config
  unfolding make_config make_config_zone_origins
  make_config-IsValid args config h =
      let (z, zones, h1) = >>?-eq-some (make_config_zone_origins names u loading args) _ h in
      let (rs, records, h2) = >>?-eq-some (make_a_records names u loading z.primary args) _ h1 in
      let (servers, read, h3) = >>?-eq-some (make_name_servers names u loading args) _ h2 in
      let (key, paired, h4) =
        >>?-eq-some (ok (ext_private_key_of names u loading args.priv_key_path args)) _ h3 in
      let (aliases, loaded, of_aliases) = >>?-eq-some (loads args.alias_zones) _ zones in
      let made : DnsServerConfig names Pair = record {
        zone_origins = z;
        primary_name_server = servers.0;
        name_servers = servers.1;
        a_records = rs;
        ext_private_key = key;
      } in
      let same : made ≡ config = ground arith in
      subst (IsValid args) same (record {
        zones = (aliases, loaded, zone_origins_of-AreZones args aliases z of_aliases);
        records =
            make_a_records-AreRecords names name_laws u laws loading z.primary args rs records;
        servers = (make_name_servers_iff names u loading args servers.0 servers.1).0 read;
        key = ext_private_key_of-HasKey args.priv_key_path args key (ground arith);
      })
