-- ===== src/Config/Clients.antt =====
-- What cmd/consumer/main.go and cmd/provider/main.go have in common.
use http_broker.Base.{Bool, false, Option, none, some, if◌then◌else◌, ◌==◌}
use http_broker.Base.Int.{ℤ, pos, negsuc}

-- A flag that was set on the command line, or not.
abbrev pub if_changed : {A : Type 0} → Option Bool → (Bool → A → A) → A → A
if_changed none change a = a
if_changed (some b) change a = change b a

abbrev pub is_zero : ℤ → Bool
is_zero (pos n) = n == 0
is_zero (negsuc n) = false

abbrev pub if_zero : {A : Type 0} → ℤ → (A → A) → A → A
if_zero d change a = if is_zero d then change a else a

-- 50 milliseconds, 5 seconds and 10 seconds.
abbrev pub default_poll_interval : ℤ
default_poll_interval = pos 50000000

abbrev pub default_retry_backoff : ℤ
default_retry_backoff = pos 5000000000

abbrev pub default_dial_timeout : ℤ
default_dial_timeout = pos 10000000000
