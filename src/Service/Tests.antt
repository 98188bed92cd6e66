-- ===== src/Service/Tests.antt =====
-- A server from its arguments to its answers.
use mathlib.Core.List.{Memᴰ}
use a_healthy_dns.Base.{
  ◌++◌, ◌≡◌, refl, sym, subst, true, false, [], ◌∷◌, some, Result, ok, arith, all_iff, ltb, ltb→lt,
}
use a_healthy_dns.Base.Int.{pos}
use a_healthy_dns.Base.Text.{Text, codes}
use a_healthy_dns.Unicode.{ascii_unicode, ascii_unicode-AsciiLaws}
use a_healthy_dns.Dns.Names.Sample.{
  Labels, sample_names, sample_names-NamesLaws, from_text_below, relative_injective,
}
use a_healthy_dns.Dns.Rdatasets.{Rdataset, in_class, a_type}
use a_healthy_dns.Dns.Rdatasets.Sample.{sample_rdatasets, sample_rdatasets-RdatasetsLaws}
use a_healthy_dns.Dns.Zones.Sample.{sample_origin, sample_zones, sample_zones-ZonesLaws}
use a_healthy_dns.Dns.Messages.{Bytes, Question, Query, IsPrintOf}
use a_healthy_dns.Dns.Messages.Sample.{Reply, sample_messages}
use a_healthy_dns.Dns.Messages.Sample.Laws.{sample_messages-MessagesLaws, sample_set-IsPrintableSet}
use a_healthy_dns.Records.ZoneOrigins.{ZoneOrigins, origin_for}
use a_healthy_dns.Records.HealthyIp.{AHealthyIp}
use a_healthy_dns.Records.HealthyRecord.Sets.{Publishes}
use a_healthy_dns.Records.Soa.{make_ns_record}
use a_healthy_dns.Updater.State.{make_updater}
use a_healthy_dns.Updater.Rebuild.Committed.{IsUnnamed}
use a_healthy_dns.Updater.Current.{IsSound}
use a_healthy_dns.Updater.Sample.{www, unsigned, unsigned-Keeps, fresh-IsSound}
use a_healthy_dns.Config.{PrivateKeyPair}
use a_healthy_dns.Config.Sample.{sample_loading, sample_args, sample_config, sample_accepted}
use a_healthy_dns.Threaded.{is_alive, ThreadedUpdater, initialized, make_threaded_updater}
use a_healthy_dns.Threaded.Sample.{
  idle, started, idle_thread, idle_starts, stopped_in_update, started_runs, in_update,
  served_records,
}
use a_healthy_dns.Handler.Outcome.{classify_query}
use a_healthy_dns.Handler.Outcome.Found.{HasNoAnswer}
use a_healthy_dns.Handler.Packet.{Server, drop_inbound_response_packet, handle}
use a_healthy_dns.Handler.Packet.Served.{Carries}
use a_healthy_dns.Service.Datagrams.{handle-Publishes}
use a_healthy_dns.Service.Answers.{AsksFor, answer_of, IsAnswered}
use a_healthy_dns.Service.Startup.{ReadingLaws, AreAscii, make_threaded_updater-IsSound}
use a_healthy_dns.Service.Running.{classify_query-IsAnswered, classify_query-HasNoAnswer}

abbrev origins : ZoneOrigins sample_names
origins = record { primary = sample_origin; origins = sample_origin ∷ [] }

abbrev name_of : Text → Labels
name_of label = record { labels = label ∷ codes "example" ∷ codes "com" ∷ []; absolute = true }

abbrev question_of : Text → Question sample_names
question_of label = record { name = name_of label; rdclass = in_class; rdtype = a_type }

www_asked : AsksFor sample_origin origins (question_of (codes "www")) www
unfolding origin_for
www_asked = record {
  absolute = refl;
  rdtype = refl;
  apex = sample_origin;
  lies = refl;
  owner = refl;
}

www_served : Memᴰ www stopped_in_update.updater.a_recs
www_served = subst (λ rs. Memᴰ www rs) (sym served_records) (Memᴰ.head refl)

classify_query-IsAnswered_example :
    IsAnswered sample_rdatasets-RdatasetsLaws stopped_in_update.updater.max_interval www
      (question_of (codes "www"))
      (classify_query sample_names sample_rdatasets sample_zones
        (question_of (codes "www"))
        stopped_in_update.updater.zone
        origins)
classify_query-IsAnswered_example =
    classify_query-IsAnswered sample_zones sample_names-NamesLaws sample_zones-ZonesLaws
      sample_rdatasets-RdatasetsLaws unsigned unsigned-Keeps ascii_unicode ascii_unicode-AsciiLaws
      idle started stopped_in_update (7 ∷ []) [] (pos 0) idle_thread fresh-IsSound idle_starts
      started_runs in_update origins (question_of (codes "www")) www www_served www_asked

mail_lies : origin_for sample_names origins (name_of (codes "mail")) ≡ some sample_origin
unfolding origin_for
mail_lies = refl

mail-IsUnnamed :
    IsUnnamed Text sample_zones sample_names-NamesLaws sample_zones-ZonesLaws
      sample_rdatasets-RdatasetsLaws
      (sample_names.relativize (name_of (codes "mail")) sample_origin)
      stopped_in_update.updater.a_recs
mail-IsUnnamed =
    subst
      (IsUnnamed Text sample_zones sample_names-NamesLaws sample_zones-ZonesLaws
        sample_rdatasets-RdatasetsLaws
        (sample_names.relativize (name_of (codes "mail")) sample_origin))
      (sym served_records) (refl, tt)

classify_query-HasNoAnswer_example : HasNoAnswer (
    classify_query sample_names sample_rdatasets sample_zones
      (question_of (codes "mail"))
      stopped_in_update.updater.zone
      origins)
classify_query-HasNoAnswer_example =
    classify_query-HasNoAnswer sample_zones sample_names-NamesLaws sample_zones-ZonesLaws
      sample_rdatasets-RdatasetsLaws unsigned unsigned-Keeps ascii_unicode ascii_unicode-AsciiLaws
      idle started stopped_in_update (7 ∷ []) [] (pos 0) idle_thread fresh-IsSound idle_starts
      started_runs in_update origins (question_of (codes "mail")) sample_origin refl refl mail_lies
      mail-IsUnnamed

sample_names-ReadingLaws : ReadingLaws sample_names
sample_names-ReadingLaws = record {
  below = λ t origin n h e. from_text_below t origin n e;
  relativize_injective = λ a b origin ha hb e. relative_injective a b origin ha hb e;
}

abbrev Pair : Type 0
Pair = PrivateKeyPair sample_names ascii_unicode sample_loading

abbrev configured_result : Result (ThreadedUpdater sample_names Pair sample_rdatasets sample_zones)
configured_result =
    make_threaded_updater sample_names Pair sample_rdatasets sample_zones (λ origin. []) (pos 30)
      (pos 2) sample_config

configured :
    (self : ThreadedUpdater sample_names Pair sample_rdatasets sample_zones) × (configured_result
      ≡ ok self)
unfolding make_threaded_updater initialized make_updater make_ns_record
configured = (_, refl)

configured-AreAscii :
    AreAscii sample_loading sample_zones sample_names-NamesLaws sample_names-ReadingLaws
      sample_rdatasets-RdatasetsLaws ascii_unicode ascii_unicode-AsciiLaws sample_config.a_records
configured-AreAscii = (
  (
    (all_iff (λ c. ltb c 128) (λ c. ((λ e. ltb→lt c 128 e), λ l. ground arith))
          (codes "10.0.0.1")).0
        refl,
    tt,
  ),
  tt,
)

make_threaded_updater-IsSound_example :
    (is_alive configured.0.updater_thread ≡ false)
    × IsSound sample_zones sample_names-NamesLaws sample_zones-ZonesLaws
        sample_rdatasets-RdatasetsLaws configured.0.updater
make_threaded_updater-IsSound_example =
    make_threaded_updater-IsSound sample_loading sample_zones sample_names-NamesLaws
      sample_names-ReadingLaws sample_rdatasets-RdatasetsLaws ascii_unicode ascii_unicode-AsciiLaws
      sample_args sample_config sample_zones-ZonesLaws (λ origin. []) (pos 30) (pos 2) configured.0
      sample_accepted configured-AreAscii configured.1

-- A query for the addresses of `www.example.com`.
abbrev www_packet : Bytes
www_packet =
    (18 ∷ 52 ∷ 1 ∷ 0 ∷ 0 ∷ 1 ∷ 0 ∷ 0 ∷ 0 ∷ 0 ∷ 0 ∷ 0 ∷ [])
    ++ 3 ∷ codes "www"
    ++ 7 ∷ codes "example"
    ++ 3 ∷ codes "com"
    ++ 0 ∷ 0 ∷ 1 ∷ 0 ∷ 1 ∷ []

abbrev www_query : Query sample_names
www_query = record { id = 4660; opcode = 0; question = question_of (codes "www") ∷ [] }

abbrev response : Reply
response = record { id = 4660; flags = 0x8000; answer = []; authority = [] }

www_kept : drop_inbound_response_packet www_packet ≡ false
unfolding drop_inbound_response_packet
www_kept = refl

abbrev running_server : Server sample_names sample_rdatasets sample_messages sample_zones
running_server = record { zone = stopped_in_update.updater.zone; zone_origins = origins }

abbrev www_up : AHealthyIp
www_up = record { ip = codes "10.0.0.1"; health_port = some (pos 80); is_healthy = true }

handle-Publishes_example :
    (a : Rdataset Text) × Publishes sample_names sample_rdatasets sample_rdatasets-RdatasetsLaws
      stopped_in_update.updater.max_interval www a
    × (m : Reply) × (wire : Bytes) × (handle sample_names sample_rdatasets sample_messages
          sample_zones running_server www_packet
        ≡ ok (wire ∷ []))
    × IsPrintOf sample_messages m 512 wire
    × Carries sample_messages sample_messages-MessagesLaws sample_zones running_server 4660
        (answer_of sample_rdatasets-RdatasetsLaws (name_of (codes "www")) a)
        m
handle-Publishes_example =
    handle-Publishes sample_messages sample_messages-MessagesLaws sample_zones
      sample_names-NamesLaws sample_zones-ZonesLaws sample_rdatasets-RdatasetsLaws unsigned
      unsigned-Keeps ascii_unicode ascii_unicode-AsciiLaws idle started stopped_in_update (7 ∷ [])
      [] (pos 0) idle_thread fresh-IsSound idle_starts started_runs in_update origins www_packet
      www_query (question_of (codes "www")) response www www_up www_kept refl refl
      (record { opcode = refl; single = refl; rdclass = refl; absolute = refl }) www_served
      www_asked (Memᴰ.head refl) refl (λ a p. (sample_set-IsPrintableSet _, tt))
