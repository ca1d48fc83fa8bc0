-- ===== src/Fde/Timeout.antt =====
-- lib/libiapp/fde.c: comparing times, queueing a timer, and the time to sleep. Seconds and
-- microseconds are numbers that are not negative.
use libiapp.Base.{
  ℕ, ◌+◌, ◌-◌, Bool, true, false, Option, none, some, List, [], ◌∷◌, ◌++◌, ℤ, pos, negsuc, ltb,
  ◌==◌, if◌then◌else◌,
}
use libiapp.Fde.Event.{Timeval, Fde, FdeHead, put, update}

abbrev pub sign : ℕ → ℕ → ℤ
sign l r = if ltb r l then pos 1 else if ltb l r then negsuc 0 else pos 0

-- timeval_cmp: (l > r) - (l < r), on the seconds, or on the microseconds where those are equal.
unfoldable pub timeval_cmp : Timeval → Timeval → ℤ
timeval_cmp t1 t2 =
    if t1.tv_sec == t2.tv_sec then sign t1.tv_usec t2.tv_usec else sign t1.tv_sec t2.tv_sec

abbrev pub le_zero : ℤ → Bool
le_zero (pos n) = n == 0
le_zero (negsuc n) = true

abbrev pub ge_zero : ℤ → Bool
ge_zero (pos n) = true
ge_zero (negsuc n) = false

abbrev pub gt_zero : ℤ → Bool
gt_zero (pos n) = ltb 0 n
gt_zero (negsuc n) = false

abbrev pub lt_zero : ℤ → Bool
lt_zero (pos n) = false
lt_zero (negsuc n) = true

-- TAILQ_LAST.
unfoldable pub last : ℕ → List ℕ → ℕ
last n [] = n
last n (m ∷ rest) = last m rest

-- TAILQ_INSERT_AFTER.
unfoldable pub insert_after : ℕ → ℕ → List ℕ → List ℕ
insert_after n i [] = []
insert_after n i (m ∷ rest) = if m == n then m ∷ i ∷ rest else m ∷ insert_after n i rest

-- The TAILQ_FOREACH of fde_add_timeout: the entry at which it breaks, NULL if it runs to the end.
unfoldable pub walk : (ℕ → Fde) → Timeval → List ℕ → Option ℕ
unfolding timeval_cmp
walk m tv [] = none
walk m tv (n ∷ rest) = if gt_zero (timeval_cmp tv (m n).tv) then some n else walk m tv rest

-- The insertion of fde_add_timeout into the timer queue. A NULL from the walk would be
-- dereferenced; it is not met, since the walk stops at the first entry.
unfoldable pub insert_timer : (ℕ → Fde) → Timeval → ℕ → List ℕ → List ℕ
unfolding timeval_cmp last insert_after walk
insert_timer m tv i [] = i ∷ []
insert_timer m tv i (n ∷ rest) =
    if le_zero (timeval_cmp tv (m n).tv)
    then i ∷ n ∷ rest
    else if ge_zero (timeval_cmp tv (m (last n rest)).tv)
    then insert_after (last n rest) i (n ∷ rest)
    else elim (walk m tv (n ∷ rest)) [ none ↦ n ∷ rest | some k ↦ insert_after k i (n ∷ rest) ]

-- fde_add_timeout. A wrong type is reported on stderr and goes on.
unfoldable pub fde_add_timeout : FdeHead → ℕ → Timeval → FdeHead
unfolding update insert_timer
fde_add_timeout h i tv =
    let f = h.fdes i in
    let g = put h i (record f { is_active = true; tv = tv }) in
    if f.is_active
    then h
    else record g { f_head = h.f_head ++ i ∷ []; f_t_head = insert_timer g.fdes tv i h.f_t_head }

-- fde_t_get_timeout on the first timer.
unfoldable pub sleep_until : Timeval → Timeval → Timeval
unfolding timeval_cmp
sleep_until now due =
    if ge_zero (timeval_cmp now due)
    then record { tv_sec = 0; tv_usec = 0 }
    else if ltb due.tv_usec now.tv_usec
    then record {
      tv_sec = due.tv_sec - now.tv_sec - 1;
      tv_usec = due.tv_usec + 1000000 - now.tv_usec;
    }
    else record { tv_sec = due.tv_sec - now.tv_sec; tv_usec = due.tv_usec - now.tv_usec }

-- fde_t_get_timeout.
unfoldable pub fde_t_get_timeout : FdeHead → Timeval → Timeval → Timeval
unfolding sleep_until
fde_t_get_timeout h now timeout = elim h.f_t_head [
  | [] ↦ timeout
  | n ∷ _ ↦ sleep_until now (h.fdes n).tv
]
