-- ===== src/Tools/Clock.antt =====
-- tools/uint32_current_time.py and tools/can_create_connection.py. What `time.time()` reads, in whole
-- seconds, and whether a connection is made are arguments.
use a_healthy_dns.Base.{
  ℕ, Bool, true, false, ltb, if◌then◌else◌, Result, ok, raised, overflow_error,
}

-- `(1 << 32) - 1`
abbrev pub max_uint32 : ℕ
max_uint32 = 4294967295

unfoldable pub uint32_current_time : ℕ → Result ℕ
uint32_current_time current_time =
    if ltb max_uint32 current_time then raised overflow_error else ok current_time

-- How `socket.create_connection` ends: with a connection, or with any exception.
pub data Attempt : Type 0 where
  connected failed : Attempt

unfoldable pub can_create_connection : Attempt → Bool
can_create_connection connected = true
can_create_connection failed = false
