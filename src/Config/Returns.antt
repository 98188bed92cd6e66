-- ===== src/Config/Returns.antt =====
-- `make_config` returns: bad arguments give no configuration, and nothing is raised.
use a_healthy_dns.Base.{
  ◌≡◌, refl, sym, subst, inl, inr, false, Option, none, some, List, [], ◌∷◌, arith, ok, raised,
  value_error, caught, Bool-cases, Returns, MayRefuse, caught-Returns, >>=-MayRefuse, >>?-Returns,
}
use a_healthy_dns.Base.Text.{Text}
use a_healthy_dns.Json.{Value, str, list, dict, items_of, entries_of}
use a_healthy_dns.Unicode.{Unicode}
use a_healthy_dns.Dns.Names.{Names}
use a_healthy_dns.Tools.Subdomain.{is_valid_subdomain}
use a_healthy_dns.Tools.Subdomain.Hostname.{
  IsHostname, is_valid_subdomain_iff, is_valid_subdomain_flag,
}
use a_healthy_dns.Records.HealthyIp.{make_healthy_ip}
use a_healthy_dns.Records.HealthyIp.Status.{make_healthy_ip-MayRefuse}
use a_healthy_dns.Records.ZoneOrigins.{or_raise, to_abs_name, to_abs_names, make_zone_origins}
use a_healthy_dns.Config.{
  Args, Loading, zone_origins_of, ip_list_of, make_healthy_ips, record_of, make_healthy_a_record,
  healthy_a_records, a_records_of_entries, a_records_of, make_config_zone_origins, make_a_records,
  name_servers_of, make_name_servers, ext_private_key_of, make_config,
}

module _ (names : Names) (u : Unicode) where
  open names use {Name, to_host, from_text}

  make_healthy_ips-MayRefuse :
      (health_port : Value) (vs : List Value) → MayRefuse (make_healthy_ips u health_port vs)
  unfolding make_healthy_ips
  make_healthy_ips-MayRefuse health_port [] = tt
  make_healthy_ips-MayRefuse health_port (v ∷ vs) =
      >>=-MayRefuse (make_healthy_ip u v health_port false) _
        (make_healthy_ip-MayRefuse u v health_port false)
        (λ x.
          >>=-MayRefuse (make_healthy_ips u health_port vs) _
            (make_healthy_ips-MayRefuse health_port vs) (λ xs. tt))

  record_of-Returns :
      (n : Name) (read : Option (List Value × Value)) → Returns (record_of names u n read)
  unfolding record_of
  record_of-Returns n none = (none, refl)
  record_of-Returns n (some ([], port)) = (none, refl)
  record_of-Returns n (some (v ∷ vs, port)) =
      >>?-Returns (caught (make_healthy_ips u port (v ∷ vs))) _
        (caught-Returns (make_healthy_ips u port (v ∷ vs))
          (make_healthy_ips-MayRefuse port (v ∷ vs)))
        (λ xs. (_, refl))

  -- Host names below an origin can be read as names there.
  abbrev pub Reads : Name → Type 0
  Reads origin =
      (t : Text) → IsHostname t (to_host origin) → (n : Name) × (from_text t origin ≡ some n)

  make_healthy_a_record-Returns :
      (origin : Name) (key : Text) (value : Value)
      → Reads origin
      → Returns (make_healthy_a_record names u origin key value)
  unfolding make_healthy_a_record or_raise
  make_healthy_a_record-Returns origin key value reads =
      elim (Bool-cases (is_valid_subdomain (str key) (to_host origin)).0) [
        | inl e ↦
            let valid = is_valid_subdomain_flag key (to_host origin) e in
            let (n, read) = reads key ((is_valid_subdomain_iff key (to_host origin)).0 valid) in
            let (o, same) = record_of-Returns n (ip_list_of names value) in
            (o, ground (arith, same))
        | inr e ↦ (none, ground arith)
      ]

  healthy_a_records-Returns :
      (origin : Name) (entries : List (Text × Value))
      → Reads origin
      → Returns (healthy_a_records names u origin entries)
  unfolding healthy_a_records
  healthy_a_records-Returns origin [] reads = (_, refl)
  healthy_a_records-Returns origin ((key, value) ∷ entries) reads =
      >>?-Returns (make_healthy_a_record names u origin key value) _
        (make_healthy_a_record-Returns origin key value reads)
        (λ r.
          >>?-Returns (healthy_a_records names u origin entries) _
            (healthy_a_records-Returns origin entries reads) (λ rs. (_, refl)))

  a_records_of_entries-Returns :
      (origin : Name) (entries : List (Text × Value))
      → Reads origin
      → Returns (a_records_of_entries names u origin entries)
  unfolding a_records_of_entries
  a_records_of_entries-Returns origin [] reads = (none, refl)
  a_records_of_entries-Returns origin (e ∷ es) reads =
      >>?-Returns (healthy_a_records names u origin (e ∷ es)) _
        (healthy_a_records-Returns origin (e ∷ es) reads) (λ rs. (_, refl))

  a_records_of-Returns :
      (origin : Name) (v : Value) → Reads origin → Returns (a_records_of names u origin v)
  unfolding a_records_of
  a_records_of-Returns origin (dict es) reads =
      a_records_of_entries-Returns origin (entries_of es) reads
  a_records_of-Returns origin v reads = (none, refl)

  -- Host names can be read as absolute names.
  abbrev pub ReadsAbsolute : Type 0
  ReadsAbsolute = (t : Text) → IsHostname t [] → (n : Name) × (from_text t names.root ≡ some n)

  to_abs_name-MayRefuse : (v : Value) → ReadsAbsolute → MayRefuse (to_abs_name names v)
  unfolding to_abs_name or_raise
  to_abs_name-MayRefuse (str t) reads = elim (Bool-cases (is_valid_subdomain (str t) []).0) [
    | inl e ↦
        let valid = is_valid_subdomain_flag t [] e in
        let (n, read) = reads t ((is_valid_subdomain_iff t []).0 valid) in
        let same : to_abs_name names (str t) ≡ ok n = ground arith in subst MayRefuse (sym same) tt
    | inr e ↦
        let same : to_abs_name names (str t) ≡ raised value_error = ground arith in
        subst MayRefuse (sym same) tt
  ]
  to_abs_name-MayRefuse v reads = unfold is_valid_subdomain in tt

  to_abs_names-MayRefuse : (vs : List Value) → ReadsAbsolute → MayRefuse (to_abs_names names vs)
  unfolding to_abs_names
  to_abs_names-MayRefuse [] reads = tt
  to_abs_names-MayRefuse (v ∷ vs) reads =
      >>=-MayRefuse (to_abs_name names v) _ (to_abs_name-MayRefuse v reads)
        (λ n. >>=-MayRefuse (to_abs_names names vs) _ (to_abs_names-MayRefuse vs reads) (λ ns. tt))

  zone_origins_of-Returns :
      (hosted aliases : Value) → ReadsAbsolute → Returns (zone_origins_of names hosted aliases)
  unfolding zone_origins_of make_zone_origins
  zone_origins_of-Returns hosted (list vs) reads =
      caught-Returns (make_zone_origins names hosted (items_of vs)) (
        >>=-MayRefuse (to_abs_name names hosted) _ (to_abs_name-MayRefuse hosted reads) (λ n.
          >>=-MayRefuse (to_abs_names names (items_of vs)) _
            (to_abs_names-MayRefuse (items_of vs) reads) (λ ns. tt)))
  zone_origins_of-Returns hosted v reads = (none, refl)

  -- Where `json.loads` raises nothing but the error that is caught, and host names that fit below a
  -- name can be read as names there, whatever the arguments are, a call of `make_config` returns: a
  -- configuration, or nothing.
  pub make_config-Returns :
      (loading : Loading) (args : Args)
      → ((t : Text) → Returns (loading.loads t))
      → ReadsAbsolute
      → ((origin : Name) → Reads origin)
      → Returns (make_config names u loading args)
  unfolding make_config make_config_zone_origins make_a_records make_name_servers
  make_config-Returns loading args loads absolute reads =
      >>?-Returns (make_config_zone_origins names u loading args) _
        (>>?-Returns (loading.loads args.alias_zones) _ (loads args.alias_zones)
          (λ v. zone_origins_of-Returns args.zone v absolute))
        (λ z.
          >>?-Returns (make_a_records names u loading z.primary args) _
            (>>?-Returns (loading.loads args.resolutions) _ (loads args.resolutions)
              (λ v. a_records_of-Returns z.primary v (reads z.primary)))
            (λ rs.
              >>?-Returns (make_name_servers names u loading args) _
                (>>?-Returns (loading.loads args.name_servers) _ (loads args.name_servers)
                  (λ v. (name_servers_of v, refl)))
                (λ servers.
                  >>?-Returns (ok (ext_private_key_of names u loading args.priv_key_path args)) _
                    (_, refl) (λ key. (_, refl)))))
