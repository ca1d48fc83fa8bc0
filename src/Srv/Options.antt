-- ===== src/Srv/Options.antt =====
-- The options of src/srv/srv.c: srv_parse_option, and the settings of lib/libiapp/conn_cfg.h that main starts
-- from. A string is the list of its bytes without the NUL.
use libiapp.Base.{
  ℕ, suc, ◌+◌, ◌-◌, ◌*◌, ◌%◌, ◌^◌, ltb, Bool, true, false, ◌&&◌, ◌||◌, Option, none, some, List, [],
  ◌∷◌, ℤ, pos, negsuc, leb, ◌==◌, if◌then◌else◌,
}
use libiapp.Netbuf.State.{NetbufAllocType, nb_alloc_malloc, nb_alloc_posixshm}
use libiapp.Debug.State.{Text}

-- struct cfg.
pub record SrvCfg : Type 0 where
  pub num_threads : ℤ
  pub io_size : ℤ
  pub max_num_conns : ℤ
  pub atype : NetbufAllocType
  pub port : ℤ
  pub do_thread_pin : ℤ
  pub do_fd_affinity : ℤ

-- What main starts from.
abbrev pub default_cfg : SrvCfg
default_cfg = record {
  num_threads = pos 2;
  io_size = pos 16384;
  max_num_conns = pos 32768;
  atype = nb_alloc_malloc;
  port = pos 1667;
  do_thread_pin = pos 1;
  do_fd_affinity = pos 0;
}

-- "num_threads"
abbrev pub num_threads_text : Text
num_threads_text = 110 ∷ 117 ∷ 109 ∷ 95 ∷ 116 ∷ 104 ∷ 114 ∷ 101 ∷ 97 ∷ 100 ∷ 115 ∷ []

-- "io_size"
abbrev pub io_size_text : Text
io_size_text = 105 ∷ 111 ∷ 95 ∷ 115 ∷ 105 ∷ 122 ∷ 101 ∷ []

-- "max_num_conns"
abbrev pub max_num_conns_text : Text
max_num_conns_text = 109 ∷ 97 ∷ 120 ∷ 95 ∷ 110 ∷ 117 ∷ 109 ∷ 95 ∷ 99 ∷ 111 ∷ 110 ∷ 110 ∷ 115 ∷ []

-- "atype"
abbrev pub atype_text : Text
atype_text = 97 ∷ 116 ∷ 121 ∷ 112 ∷ 101 ∷ []

-- "port"
abbrev pub port_text : Text
port_text = 112 ∷ 111 ∷ 114 ∷ 116 ∷ []

-- "do_thread_pin"
abbrev pub do_thread_pin_text : Text
do_thread_pin_text = 100 ∷ 111 ∷ 95 ∷ 116 ∷ 104 ∷ 114 ∷ 101 ∷ 97 ∷ 100 ∷ 95 ∷ 112 ∷ 105 ∷ 110 ∷ []

-- "do_fd_affinity"
abbrev pub do_fd_affinity_text : Text
do_fd_affinity_text =
    100 ∷ 111 ∷ 95 ∷ 102 ∷ 100 ∷ 95 ∷ 97 ∷ 102 ∷ 102 ∷ 105 ∷ 110 ∷ 105 ∷ 116 ∷ 121 ∷ []

-- "posixshm"
abbrev pub posixshm_text : Text
posixshm_text = 112 ∷ 111 ∷ 115 ∷ 105 ∷ 120 ∷ 115 ∷ 104 ∷ 109 ∷ []

-- "malloc"
abbrev pub malloc_text : Text
malloc_text = 109 ∷ 97 ∷ 108 ∷ 108 ∷ 111 ∷ 99 ∷ []

-- strcmp(3) is 0.
unfoldable pub strcmp_equal : Text → Text → Bool
strcmp_equal [] [] = true
strcmp_equal [] (y ∷ b) = false
strcmp_equal (x ∷ a) [] = false
strcmp_equal (x ∷ a) (y ∷ b) = (x == y) && strcmp_equal a b

-- The part of a string before the first '=', and the rest behind it where there is one.
unfoldable pub split_text : Text → Text × Option Text
split_text [] = ([], none)
split_text (c ∷ cs) =
    let (a, rest) = split_text cs in if c == 61 then ([], some cs) else (c ∷ a, rest)

-- strsep(3) with "=": the token, or NULL, and where the pointer stands then.
unfoldable pub strsep : Option Text → Option Text × Option Text
unfolding split_text
strsep none = (none, none)
strsep (some p) = let (a, rest) = split_text p in (some a, rest)

abbrev pub is_space : ℕ → Bool
is_space c = (c == 32) || (leb 9 c && leb c 13)

abbrev pub is_digit : ℕ → Bool
is_digit c = leb 48 c && leb c 57

-- The number that the digits at the start of a string spell, behind `acc`.
unfoldable pub digits : (acc : ℕ) → Text → ℕ
digits acc [] = acc
digits acc (c ∷ cs) = let n = digits (acc * 10 + (c - 48)) cs in if is_digit c then n else acc

-- The int of a pattern of bits: its last 32, in two's complement.
unfoldable pub int_of : ℕ → ℤ
int_of w = let k = w % 2 ^ 32 in if ltb k (2 ^ 31) then pos k else negsuc (2 ^ 32 - k - 1)

-- strtol(3) stops at the bounds of a long of 64 bits; atoi(3) keeps its last 32.
abbrev pub positive : ℕ → ℤ
positive n = int_of (if ltb n (2 ^ 63) then n else 2 ^ 63 - 1)

abbrev pub negate : ℕ → ℤ
negate n = int_of (2 ^ 64 - (if ltb n (2 ^ 63) then n else 2 ^ 63))

-- atoi(3), which is (int)strtol(s, NULL, 10).
unfoldable pub atoi : Text → ℤ
unfolding digits int_of
atoi [] = pos 0
atoi (c ∷ cs) =
    let rest = atoi cs in
    if is_space c
    then rest
    else if c == 45
    then negate (digits 0 cs)
    else if c == 43
    then positive (digits 0 cs)
    else positive (digits 0 (c ∷ cs))

-- The tests of srv_parse_option on the two tokens. The Boolean says that 0 is returned, and not -1.
unfoldable pub set_option : SrvCfg → (sa sv : Text) → SrvCfg × Bool
unfolding strcmp_equal atoi
set_option cfg sa sv =
    if strcmp_equal num_threads_text sa
    then (record cfg { num_threads = atoi sv }, true)
    else if strcmp_equal io_size_text sa
    then (record cfg { io_size = atoi sv }, true)
    else if strcmp_equal max_num_conns_text sa
    then (record cfg { max_num_conns = atoi sv }, true)
    else if strcmp_equal atype_text sa
    then (if strcmp_equal posixshm_text sv
        then (record cfg { atype = nb_alloc_posixshm }, true)
        else if strcmp_equal malloc_text sv
        then (record cfg { atype = nb_alloc_malloc }, true)
        else (cfg, false))
    else if strcmp_equal port_text sa
    then (record cfg { port = atoi sv }, true)
    else if strcmp_equal do_thread_pin_text sa
    then (record cfg { do_thread_pin = atoi sv }, true)
    else if strcmp_equal do_fd_affinity_text sa
    then (record cfg { do_fd_affinity = atoi sv }, true)
    else (cfg, false)

-- srv_parse_option, where a token may be NULL.
unfoldable pub with_tokens : SrvCfg → (sa sv : Option Text) → SrvCfg × Bool
unfolding set_option
with_tokens cfg (some sa) (some sv) = set_option cfg sa sv
with_tokens cfg _ _ = (cfg, false)

-- srv_parse_option. The copy of the string is freed at every end.
unfoldable pub srv_parse_option : (strdup : Bool) → SrvCfg → Option Text → SrvCfg × Bool
unfolding with_tokens strsep
srv_parse_option strdup cfg none = (cfg, true)
srv_parse_option strdup cfg (some opt) =
    let (sa, p) = strsep (some opt) in
    let (sv, q) = strsep p in if strdup then with_tokens cfg sa sv else (cfg, false)

-- The loop of main over its arguments, from the i-th on; `none` is exit(127).
unfoldable pub parse_args : (strdup : ℕ → Bool) → (i : ℕ) → SrvCfg → List Text → Option SrvCfg
unfolding srv_parse_option
parse_args strdup i cfg [] = some cfg
parse_args strdup i cfg (a ∷ args) =
    let (c, ok) = srv_parse_option (strdup i) cfg (some a) in
    let rest = parse_args strdup (suc i) c args in if ok then rest else none
