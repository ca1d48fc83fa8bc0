-- ===== src/Thr/Created.antt =====
-- What libiapp_thr_group_create of lib/libiapp/thr.c makes and gives back.
use libiapp.Base.{
  ℕ, zero, suc, ◌+◌, ◌≡◌, refl, ap, ◌∙◌, Bool, true, false, ◌&&◌, Option, none, some, List, [], ◌∷◌,
  length, arith, if◌then◌else◌, remove, remove-head, remove_swap,
}
use libiapp.Fde.Register.{fde_ctx_new, fde_create}
use libiapp.Thr.State.{Thr, ThrGroup, ThrHeap, take, ThrCalls}
use libiapp.Thr.Group.{
  put_loop, with_loop, libiapp_thr_create, libiapp_thr_destroy, keep_thread, create_threads,
  destroy_threads, conclude, libiapp_thr_group_create,
}

-- How many event loops are made for `n` threads from the i-th on, up to the first thread that fails.
unfoldable pub loops_made : (ℕ → ThrCalls) → (n i : ℕ) → ℕ
loops_made sys zero i = 0
loops_made sys (suc n) i =
    let c = sys i in
    let rest = loops_made sys n (suc i) in
    if c.calloc && c.calloc_head && c.kqueue then (if c.calloc_event then suc rest else 1) else 0

unfoldable pub are_active : List Thr → Bool
are_active [] = true
are_active (t ∷ ts) = t.active && are_active ts

unfoldable drop_all : List Thr → List ℕ → List ℕ
drop_all [] l = l
drop_all (t ∷ ts) l = drop_all ts (remove t.self l)

drop_all-remove :
    (ts : List Thr) (a : ℕ) (l : List ℕ) → drop_all ts (remove a l) ≡ remove a (drop_all ts l)
unfolding drop_all
drop_all-remove [] a l = refl
drop_all-remove (t ∷ ts) a l =
    ap (drop_all ts) (remove_swap t.self a l) ∙ drop_all-remove ts a (remove t.self l)

destroy_threads-live :
    (m : ThrHeap) (ts : List Thr) → (destroy_threads m ts).live ≡ drop_all ts m.live
unfolding destroy_threads drop_all libiapp_thr_destroy
destroy_threads-live m [] = refl
destroy_threads-live m (t ∷ ts) = destroy_threads-live (libiapp_thr_destroy m t) ts

destroy_threads-heads : (m : ThrHeap) (ts : List Thr) → (destroy_threads m ts).heads ≡ m.heads
unfolding destroy_threads libiapp_thr_destroy
destroy_threads-heads m [] = refl
destroy_threads-heads m (t ∷ ts) = destroy_threads-heads (libiapp_thr_destroy m t) ts

-- One thread.
abbrev One : ThrCalls → ThrHeap → ThrHeap × Option Thr → Type 0
One c m (u, none) =
    (u.live ≡ m.live)
    × (length u.heads ≡ length m.heads + (if c.calloc && c.calloc_head && c.kqueue then 1 else 0))
    × ((c.calloc && c.calloc_head && c.kqueue && c.calloc_event) ≡ false)
One c m (u, some t) =
    (u.live ≡ t.self ∷ m.live)
    × (length u.heads ≡ suc (length m.heads))
    × ((c.calloc && c.calloc_head && c.kqueue && c.calloc_event) ≡ true)

libiapp_thr_create-One :
    (c : ThrCalls) (note_eof cb : ℕ) (m : ThrHeap) → One c m (libiapp_thr_create c note_eof cb m)
unfolding libiapp_thr_create with_loop put_loop fde_ctx_new fde_create
libiapp_thr_create-One c note_eof cb m = go c.calloc c.calloc_head c.kqueue c.calloc_event
  where
    go :
        (a b k e : Bool)
        → (let d : ThrCalls = record {
          calloc = a;
          calloc_head = b;
          kqueue = k;
          calloc_event = e;
        } in
            One d m (libiapp_thr_create d note_eof cb m))
    go false b k e = (refl, omega arith, refl)
    go true false k e = (remove-head m.next_block m.live, omega arith, refl)
    go true true false e = (remove-head m.next_block m.live, omega arith, refl)
    go true true true false = (remove-head m.next_block m.live, omega arith, refl)
    go true true true true = (refl, refl, refl)

-- The threads that were made so far.
abbrev Batch : (ℕ → ThrCalls) → (n i : ℕ) → ThrHeap → ThrHeap × List Thr × Bool → Type 0
Batch sys n i m (u, ts, ok) =
    (drop_all ts u.live ≡ m.live)
    × (length u.heads ≡ length m.heads + loops_made sys n i)
    × (ok ≡ true → (length ts ≡ n) × (are_active ts ≡ true) × (length u.live ≡ length m.live + n))

keep_thread-Batch :
    (sys : ℕ → ThrCalls) (n i : ℕ) (m u : ThrHeap) (t : Option Thr) (r : ThrHeap × List Thr × Bool)
    → One (sys i) m (u, t)
    → Batch sys n (suc i) u r
    → Batch sys (suc n) i m (keep_thread u t r)
unfolding keep_thread drop_all loops_made are_active
keep_thread-Batch sys n i m u none r (l, h, b) v = (l, ground (arith, h, b), λ e. cc)
keep_thread-Batch sys n i m u (some t) (w, ts, ok) (l, h, b) (d, g, f) = (
  drop_all-remove ts t.self w.live ∙ ap (remove t.self) (d ∙ l) ∙ remove-head t.self m.live,
  ground (arith, h, b, g),
  λ e. (ap suc (f e).0, (f e).1, (f e).2 ∙ ap (λ ls. length ls + n) l ∙ omega arith),
)

create_threads-Batch :
    (sys : ℕ → ThrCalls) (note_eof cb n i : ℕ) (m : ThrHeap)
    → Batch sys n i m (create_threads sys note_eof cb n i m)
unfolding create_threads drop_all loops_made are_active
create_threads-Batch sys note_eof cb zero i m = (refl, omega arith, λ e. (refl, refl, omega arith))
create_threads-Batch sys note_eof cb (suc n) i m =
    let (u, t) = libiapp_thr_create (sys i) note_eof cb m in
    keep_thread-Batch sys n i m u t _ (libiapp_thr_create-One (sys i) note_eof cb m)
      (create_threads-Batch sys note_eof cb n (suc i) u)

-- What libiapp_thr_group_create comes to, where `loops` event loops are made: a group of `n` active threads, with
-- their structs, the group and its array held; or no group, and the blocks that were held before.
abbrev pub Group : ThrHeap → (n loops : ℕ) → ThrHeap × Option ThrGroup → Type 0
Group m n loops (u, none) = (u.live ≡ m.live) × (length u.heads ≡ length m.heads + loops)
Group m n loops (u, some tg) =
    (length tg.threads ≡ n)
    × (are_active tg.threads ≡ true)
    × (length u.live ≡ length m.live + n + 2)
    × (length u.heads ≡ length m.heads + loops)

conclude-Group :
    (sys : ℕ → ThrCalls) (m : ThrHeap) (n : ℕ) (r : ThrHeap × List Thr × Bool)
    → Batch sys n 0 (take (take m)) r
    → Group m n (loops_made sys n 0) (conclude m.next_block (suc m.next_block) n r)
unfolding conclude
conclude-Group sys m n (u, ts, true) (d, g, f) =
    ((f refl).0, (f refl).1, (f refl).2 ∙ omega arith, g)
conclude-Group sys m n (u, ts, false) (d, g, f) = (
  ap (λ l. remove m.next_block (remove (suc m.next_block) l)) (destroy_threads-live u ts ∙ d)
      ∙ ap (remove m.next_block) (remove-head (suc m.next_block) (m.next_block ∷ m.live))
      ∙ remove-head m.next_block m.live,
  ap length (destroy_threads-heads u ts) ∙ g,
)

-- libiapp_thr_group_create, whatever is answered while it makes its threads. A group has as many threads as asked
-- for, all of them active, and holds a block for each, for the array and for itself; without a group the
-- same blocks are held as before. In both cases every event loop that was made is still there, also those of
-- the threads that were destroyed and of the thread whose wakeup event failed.
pub libiapp_thr_group_create-Group :
    (calloc calloc_array : Bool) (sys : ℕ → ThrCalls) (note_eof cb : ℕ) (m : ThrHeap) (n : ℕ)
    → Group m n
        (if calloc && calloc_array then loops_made sys n 0 else 0)
        (libiapp_thr_group_create calloc calloc_array sys note_eof cb m n)
unfolding libiapp_thr_group_create
libiapp_thr_group_create-Group false a sys note_eof cb m n = (refl, omega arith)
libiapp_thr_group_create-Group true false sys note_eof cb m n =
    (remove-head m.next_block m.live, omega arith)
libiapp_thr_group_create-Group true true sys note_eof cb m n =
    conclude-Group sys m n _ (create_threads-Batch sys note_eof cb n 0 (take (take m)))
