-- ===== src/Main.antt =====
-- `_main` of main.py. The argument parser, the log and the signals are left out.
pub mod Stops
mod Tests
use a_healthy_dns.Base.{ℕ, Bool, Option, none, some, List, Result, ok, raised, ◌>>=◌}
use a_healthy_dns.Base.Int.{ℤ}
use a_healthy_dns.Unicode.{Unicode}
use a_healthy_dns.Dns.Names.{Names}
use a_healthy_dns.Dns.Rdatasets.{Rdatasets}
use a_healthy_dns.Dns.Zones.{Zones}
use a_healthy_dns.Records.Dnssec.{RrSigKey}
use a_healthy_dns.Records.ZoneOrigins.{ZoneOrigins}
use a_healthy_dns.Updater.State.{DnsServerConfig}
use a_healthy_dns.Config.{Args, Loading, PrivateKeyPair, make_config}
use a_healthy_dns.Threaded.{ThreadedUpdater, make_threaded_updater, start, stop}

-- The arguments that `_main` reads itself, beside those of the configuration.
pub record MainArgs : Type 0 where
  pub config_args : Args
  pub min_interval : ℤ
  pub connection_timeout : ℤ
  pub port : ℤ

module _ (names : Names) (u : Unicode) (loading : Loading) (rdatasets : Rdatasets)
    (zones : Zones names rdatasets) where
  abbrev pub Pair : Type 0
  Pair = PrivateKeyPair names u loading

  abbrev pub ZoneUpdater : Type 0
  ZoneUpdater = ThreadedUpdater names Pair rdatasets zones

  -- What `_main` returns or raises, and the updater, if it has been started.
  pub record Ending : Type 0 where
    pub outcome : Result ℕ
    pub zone_updater : Option ZoneUpdater

  -- What `_main` calls: `serve` is the `with` block, from opening the socket on the port to the end
  -- of `serve_forever`, and `join` the wait for the thread in `stop`. Meanwhile the thread runs.
  pub record Calls : Type 0 where
    pub empty_zone : names.Name → zones.Zone
    pub sign : zones.Txn → RrSigKey Pair → Result zones.Txn
    pub serve : ℤ → zones.Zone → ZoneOrigins names → ZoneUpdater → Result (Unit {0}) × ZoneUpdater
    pub join : ℤ → ZoneUpdater → ZoneUpdater

  module _ (calls : Calls) (args : MainArgs) (readings : List ℕ) (now : ℤ) where
    -- `finally: zone_updater.stop()` and `return 0`
    finally_stop : Result (Unit {0}) × ZoneUpdater → Ending
    finally_stop (result, zone_updater) = record {
      outcome = result >>= λ done. ok 0;
      zone_updater = some (stop names Pair rdatasets zones calls.join zone_updater).1;
    }

    after_start :
        DnsServerConfig names Pair → Result (Option (ZoneUpdater × List ℕ)) → Option Ending
    unfolding finally_stop
    after_start config (raised e) = some (record { outcome = raised e; zone_updater = none })
    after_start config (ok none) = none
    after_start config (ok (some (zone_updater, rest))) = some (
        finally_stop
          (calls.serve args.port zone_updater.updater.zone config.zone_origins zone_updater))

    after_init : DnsServerConfig names Pair → Result ZoneUpdater → Option Ending
    unfolding after_start
    after_init config (raised e) = some (record { outcome = raised e; zone_updater = none })
    after_init config (ok zone_updater) =
        after_start config (start names Pair rdatasets zones calls.sign zone_updater readings now)

    after_config : Result (Option (DnsServerConfig names Pair)) → Option Ending
    unfolding after_init
    after_config (raised e) = some (record { outcome = raised e; zone_updater = none })
    after_config (ok none) = some (record { outcome = ok 1; zone_updater = none })
    after_config (ok (some config)) = after_init config (
        make_threaded_updater names Pair rdatasets zones calls.empty_zone args.min_interval
          args.connection_timeout config)

    -- `_main`; nothing where the readings of the clock run out
    unfoldable pub main : Option Ending
    unfolding after_config
    main = after_config (make_config names u loading args.config_args)
