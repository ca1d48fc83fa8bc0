-- ===== src/Conn/Fine.antt =====
-- What the handlers of lib/libiapp/conn.c ask of the comm object, and when.
use libiapp.Base.{
  ℕ, ◌+◌, ◌%◌, ◌^◌, ◌≡◌, sym, ap, Bool, true, false, not, ◌&&◌, List, [], ◌∷◌, ◌++◌, ℤ, pos, arith,
  if◌then◌else◌, if_both, if_cases,
}
use mathlib.Core.Path.{subst}
use libiapp.Comm.State.{CommStatus}
use libiapp.Conn.State.{
  ConnState, conn_state_closing, conn_state_error, Conn, Ask, asks_write, asks_read, asks_close,
  asks_cleanup, asks_free, ConnRun, ConnOwner, ask, set_state, is_closing_state, is_running_state,
}
use libiapp.Conn.Handlers.{tell, conn_close, notify, update_stats, write_more, conn_write_cb}

-- Is the object that is asked not NULL?
abbrev pub is_sound : Ask → Bool
is_sound (asks_write b nb i len) = b
is_sound (asks_read b buf len) = b
is_sound (asks_close b) = b
is_sound (asks_cleanup ev) = true
is_sound (asks_free ev) = true

abbrev pub is_close : Ask → Bool
is_close (asks_close b) = true
is_close _ = false

unfoldable pub all_sound : List Ask → Bool
all_sound [] = true
all_sound (a ∷ rest) = is_sound a && all_sound rest

unfoldable pub count_closes : List Ask → ℕ
count_closes [] = 0
count_closes (a ∷ rest) = (if is_close a then 1 else 0) + count_closes rest

unfoldable pub count_closing : List ConnState → ℕ
count_closing [] = 0
count_closing (x ∷ rest) = (if is_closing_state x then 1 else 0) + count_closing rest

pub all_sound-snoc :
    (xs : List Ask) (a : Ask) → all_sound (xs ++ a ∷ []) ≡ (all_sound xs && is_sound a)
unfolding all_sound
all_sound-snoc [] a = ground arith
all_sound-snoc (x ∷ xs) a = ground (arith, all_sound-snoc xs a)

pub count_closes-snoc :
    (xs : List Ask) (a : Ask)
    → count_closes (xs ++ a ∷ []) ≡ count_closes xs + (if is_close a then 1 else 0)
unfolding count_closes
count_closes-snoc [] a = ground arith
count_closes-snoc (x ∷ xs) a = ground (arith, count_closes-snoc xs a)

count_closing-snoc :
    (xs : List ConnState) (x : ConnState)
    → count_closing (xs ++ x ∷ []) ≡ count_closing xs + (if is_closing_state x then 1 else 0)
unfolding count_closing
count_closing-snoc [] a = ground arith
count_closing-snoc (x ∷ xs) a = ground (arith, count_closing-snoc xs a)

-- The comm object is let go of when the connection closes. It was asked to close once then, and the owner
-- was told once, where it has a callback; no call was made on a pointer that is NULL.
pub record IsFine (s : ConnRun) : Type 0 where
  pub linked : s.c.comm ≡ not (is_closing_state s.c.state)
  pub sound : all_sound s.asks ≡ true
  pub closed_once : count_closes s.asks ≡ (if is_closing_state s.c.state then 1 else 0)
  pub told_once : count_closing s.told ≡ (if is_closing_state s.c.state && s.c.cb then 1 else 0)

pub conn_close-IsFine : (s : ConnRun) → IsFine s → IsFine (conn_close s)
unfolding conn_close tell
conn_close-IsFine s v = record {
  linked = ground (arith, v.linked);
  sound = ground (arith, v.linked, v.sound, all_sound-snoc s.asks (asks_close s.c.comm));
  closed_once = ground (arith, v.closed_once, count_closes-snoc s.asks (asks_close s.c.comm));
  told_once = ground (arith, v.told_once, count_closing-snoc s.told conn_state_closing);
}

-- A state that is not the closing one.
set_error-IsFine :
    (s : ConnRun)
    → IsFine s
    → is_closing_state s.c.state ≡ false
    → IsFine (tell conn_state_error (set_state conn_state_error s))
unfolding tell
set_error-IsFine s v e = record {
  linked = ground (arith, v.linked);
  sound = v.sound;
  closed_once = ground (arith, v.closed_once);
  told_once = ground (arith, v.told_once, count_closing-snoc s.told conn_state_error);
}

running : (x : ConnState) → is_running_state x ≡ true → is_closing_state x ≡ false
running x e = ground (arith, e)

module _ (o : ConnOwner) where
  error-IsFine :
      (s : ConnRun)
      → IsFine s
      → is_closing_state s.c.state ≡ false
      → IsFine (notify o conn_state_error (set_state conn_state_error s))
  unfolding notify
  error-IsFine s v e = let w = set_error-IsFine s v e in if_both IsFine _ (conn_close-IsFine _ w) w

  ask_write-IsFine :
      (len : ℕ) (s : ConnRun)
      → IsFine s
      → is_closing_state s.c.state ≡ false
      → IsFine (ask (asks_write s.c.comm s.c.nb 0 len) s)
  ask_write-IsFine len s v e = record {
    linked = v.linked;
    sound =
        ground (arith, v.linked, v.sound, all_sound-snoc s.asks (asks_write s.c.comm s.c.nb 0 len));
    closed_once =
        ground (arith, v.closed_once, count_closes-snoc s.asks (asks_write s.c.comm s.c.nb 0 len));
    told_once = v.told_once;
  }

  write_more-IsFine :
      (n : ℕ) (s : ConnRun)
      → IsFine s
      → is_closing_state s.c.state ≡ false
      → IsFine (write_more o n s)
  unfolding write_more
  write_more-IsFine n s v e =
      if_both IsFine _ (conn_close-IsFine s v)
        (if_both IsFine _ (error-IsFine s v e) (ask_write-IsFine _ s v e))

  module _ (d : (c : Conn) → o.stats_closes c ≡ false) where
    update_stats_eq :
        (tx : ℕ) (rx : ℤ) (s : ConnRun)
        → update_stats o tx rx s
          ≡ (if s.c.stats_cb then record s { stats = s.stats ++ (tx, rx) ∷ [] } else s)
    unfolding update_stats
    update_stats_eq tx rx s =
        ap
          (λ b.
            if s.c.stats_cb
            then (if b
                then conn_close (record s { stats = s.stats ++ (tx, rx) ∷ [] })
                else record s { stats = s.stats ++ (tx, rx) ∷ [] })
            else s)
          (d s.c)

    abbrev Open : ConnRun → Type 0
    Open s = IsFine s × (is_closing_state s.c.state ≡ false)

    update_stats-Open : (tx : ℕ) (rx : ℤ) (s : ConnRun) → Open s → Open (update_stats o tx rx s)
    update_stats-Open tx rx s (v, e) = subst Open (sym (update_stats_eq tx rx s)) (
        if_both Open s.c.stats_cb
          (
            record {
              linked = v.linked;
              sound = v.sound;
              closed_once = v.closed_once;
              told_once = v.told_once;
            },
            e,
          )
          (v, e))

    pub conn_write_cb-IsFine :
        (st : CommStatus) (n : ℕ) (s : ConnRun) → IsFine s → IsFine (conn_write_cb o st n s)
    unfolding conn_write_cb
    conn_write_cb-IsFine st n s v =
        let t = record s {
          c = record (s.c) { total_written = (s.c.total_written + n) % 2 ^ 64 };
        } in
        if_cases IsFine (not (is_running_state s.c.state)) (λ _. v)
          (λ r.
            let e : is_closing_state s.c.state ≡ false = running s.c.state (ground arith) in
            let (w, f) = update_stats-Open n (pos 0) t (
              record {
                linked = v.linked;
                sound = v.sound;
                closed_once = v.closed_once;
                told_once = v.told_once;
              },
              e,
            ) in
            if_both IsFine _ (error-IsFine s v e)
              (write_more-IsFine n (update_stats o n (pos 0) t) w f))
