-- ===== src/Fde/Time.antt =====
-- The arithmetic on times in lib/libiapp/fde.c, against microseconds since the epoch.
use libiapp.Base.{ℕ, ◌+◌, ◌-◌, ◌*◌, ◌<◌, ◌≡◌, List, ◌∷◌, arith}
use libiapp.Fde.Event.{Timeval, FdeHead}
use libiapp.Fde.Timeout.{sign, timeval_cmp, sleep_until, fde_t_get_timeout}

unfoldable pub micros : Timeval → ℕ
micros t = t.tv_sec * 1000000 + t.tv_usec

-- The microseconds are less than a second.
abbrev pub IsNormal : Timeval → Type 0
IsNormal t = t.tv_usec < 1000000

-- On normal times timeval_cmp compares the microseconds since the epoch.
timeval_cmp-micros :
    (a b : Timeval) → IsNormal a → IsNormal b → timeval_cmp a b ≡ sign (micros a) (micros b)
unfolding timeval_cmp micros
timeval_cmp-micros a b na nb = ground arith

sleep_until-micros :
    (now due : Timeval)
    → IsNormal now
    → IsNormal due
    → (micros (sleep_until now due) ≡ micros due - micros now) × IsNormal (sleep_until now due)
unfolding sleep_until timeval_cmp micros
sleep_until-micros now due nn nd = ground arith

-- While a timer is queued, on times whose microseconds are less than a second, the loop sleeps
-- exactly until the first timer is due, and not at all if it is due already. The given timeout plays no part: it is no cap.
fde_t_get_timeout-micros :
    (h : FdeHead) (now timeout : Timeval) (n : ℕ) (rest : List ℕ)
    → h.f_t_head ≡ n ∷ rest
    → IsNormal now
    → IsNormal (h.fdes n).tv
    → (micros (fde_t_get_timeout h now timeout) ≡ micros (h.fdes n).tv - micros now)
      × IsNormal (fde_t_get_timeout h now timeout)
unfolding fde_t_get_timeout
fde_t_get_timeout-micros h now timeout n rest e nn nd =
    rw (e, fde_t_get_timeout) (sleep_until-micros now (h.fdes n).tv nn nd)
