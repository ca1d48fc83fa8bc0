-- ===== src/Srv/RoundTrip.antt =====
-- Options of src/srv/srv.c, written out and parsed again.
use libiapp.Base.{
  ℕ, zero, suc, ◌+◌, ◌*◌, ◌%◌, ◌-◌, ◌^◌, ◌<◌, ◌≤◌, ◌≡◌, refl, ap, ◌∙◌, Bool, true, ◌&&◌, Option,
  none, some, List, [], ◌∷◌, ◌++◌, pos, arith, ltb, ◌==◌, if◌then◌else◌, if_cases,
}
use Prim.Native.Nat.{◌/◌}
use libiapp.Netbuf.State.{nb_alloc_malloc, nb_alloc_posixshm}
use libiapp.Debug.State.{Text}
use libiapp.Srv.Options.{
  SrvCfg, num_threads_text, io_size_text, max_num_conns_text, atype_text, port_text,
  do_thread_pin_text, do_fd_affinity_text, posixshm_text, malloc_text, split_text, is_digit, digits,
  int_of, positive, atoi, srv_parse_option, parse_args,
}

-- A setting of one option.
pub data Setting : Type 0 where
  sets_num_threads sets_io_size sets_max_num_conns : ℕ → Setting
  sets_malloc sets_posixshm : Setting
  sets_port sets_do_thread_pin sets_do_fd_affinity : ℕ → Setting

-- A number in decimal digits; `fuel` is at least the number.
unfoldable pub decimal_on : (fuel n : ℕ) → Text
decimal_on zero n = (48 + n) ∷ []
decimal_on (suc fuel) n =
    let rest = decimal_on fuel (n / 10) in
    if ltb n 10 then (48 + n) ∷ [] else rest ++ (48 + n % 10) ∷ []

abbrev pub decimal : ℕ → Text
decimal n = decimal_on n n

-- attrib=value.
unfoldable pub show_setting : Setting → Text
unfolding decimal_on
show_setting (sets_num_threads n) = num_threads_text ++ 61 ∷ decimal n
show_setting (sets_io_size n) = io_size_text ++ 61 ∷ decimal n
show_setting (sets_max_num_conns n) = max_num_conns_text ++ 61 ∷ decimal n
show_setting sets_malloc = atype_text ++ 61 ∷ malloc_text
show_setting sets_posixshm = atype_text ++ 61 ∷ posixshm_text
show_setting (sets_port n) = port_text ++ 61 ∷ decimal n
show_setting (sets_do_thread_pin n) = do_thread_pin_text ++ 61 ∷ decimal n
show_setting (sets_do_fd_affinity n) = do_fd_affinity_text ++ 61 ∷ decimal n

-- What a setting means.
unfoldable pub apply_setting : SrvCfg → Setting → SrvCfg
apply_setting cfg (sets_num_threads n) = record cfg { num_threads = pos n }
apply_setting cfg (sets_io_size n) = record cfg { io_size = pos n }
apply_setting cfg (sets_max_num_conns n) = record cfg { max_num_conns = pos n }
apply_setting cfg sets_malloc = record cfg { atype = nb_alloc_malloc }
apply_setting cfg sets_posixshm = record cfg { atype = nb_alloc_posixshm }
apply_setting cfg (sets_port n) = record cfg { port = pos n }
apply_setting cfg (sets_do_thread_pin n) = record cfg { do_thread_pin = pos n }
apply_setting cfg (sets_do_fd_affinity n) = record cfg { do_fd_affinity = pos n }

-- The number of a setting is one that an int holds.
abbrev pub is_int : Setting → Bool
is_int (sets_num_threads n) = ltb n (2 ^ 31)
is_int (sets_io_size n) = ltb n (2 ^ 31)
is_int (sets_max_num_conns n) = ltb n (2 ^ 31)
is_int sets_malloc = true
is_int sets_posixshm = true
is_int (sets_port n) = ltb n (2 ^ 31)
is_int (sets_do_thread_pin n) = ltb n (2 ^ 31)
is_int (sets_do_fd_affinity n) = ltb n (2 ^ 31)

unfoldable pub all_int : List Setting → Bool
all_int [] = true
all_int (x ∷ xs) = is_int x && all_int xs

unfoldable pub apply_all : SrvCfg → List Setting → SrvCfg
apply_all cfg [] = cfg
apply_all cfg (x ∷ xs) = apply_all (apply_setting cfg x) xs

unfoldable pub show_all : List Setting → List Text
show_all [] = []
show_all (x ∷ xs) = show_setting x ∷ show_all xs

unfoldable all_digits : Text → Bool
all_digits [] = true
all_digits (c ∷ cs) = is_digit c && all_digits cs

all_digits-append : (xs ys : Text) → all_digits (xs ++ ys) ≡ (all_digits xs && all_digits ys)
unfolding all_digits
all_digits-append [] ys = refl
all_digits-append (c ∷ xs) ys = ground (arith, all_digits-append xs ys)

decimal_on-all_digits : (fuel n : ℕ) → n ≤ fuel → all_digits (decimal_on fuel n) ≡ true
unfolding all_digits decimal_on
decimal_on-all_digits zero n l = ground arith
decimal_on-all_digits (suc fuel) n l =
    let less : n / 10 ≤ fuel = omega (arith, l) in
    if_cases (λ xs. all_digits xs ≡ true) (ltb n 10) (λ e. ground (arith, e))
      (λ e. ground (
        arith,
        all_digits-append (decimal_on fuel (n / 10)) ((48 + n % 10) ∷ []),
        decimal_on-all_digits fuel (n / 10) less,
      ))

digits-append :
    (acc : ℕ) (xs ys : Text)
    → all_digits xs ≡ true
    → digits acc (xs ++ ys) ≡ digits (digits acc xs) ys
unfolding digits all_digits
digits-append acc [] ys e = refl
digits-append acc (c ∷ xs) ys e = ground (arith, e, digits-append (acc * 10 + (c - 48)) xs ys)

digits-decimal_on : (fuel n : ℕ) → n ≤ fuel → digits 0 (decimal_on fuel n) ≡ n
unfolding digits decimal_on
digits-decimal_on zero n l = ground arith
digits-decimal_on (suc fuel) n l =
    let less : n / 10 ≤ fuel = omega (arith, l) in
    if_cases (λ xs. digits 0 xs ≡ n) (ltb n 10) (λ e. ground (arith, e))
      (λ e. ground (
        arith,
        digits-append 0 (decimal_on fuel (n / 10)) ((48 + n % 10) ∷ [])
            (decimal_on-all_digits fuel (n / 10) less),
        digits-decimal_on fuel (n / 10) less,
      ))

-- A number that an int holds.
int_of-small : (n : ℕ) → n < 2 ^ 31 → positive n ≡ pos n
unfolding int_of
int_of-small n l = ground arith

atoi-all_digits : (xs : Text) → all_digits xs ≡ true → atoi xs ≡ positive (digits 0 xs)
unfolding atoi all_digits digits int_of
atoi-all_digits [] e = refl
atoi-all_digits (c ∷ xs) e = ground (arith, e)

split_text-all_digits : (xs : Text) → all_digits xs ≡ true → split_text xs ≡ (xs, none)
unfolding split_text all_digits
split_text-all_digits [] e = refl
split_text-all_digits (c ∷ xs) e =
    if_cases (λ (z : Text × Option Text). z ≡ (c ∷ xs, none)) (c == 61) (λ p. ground (arith, p, e))
      (λ p. ap (λ z. (c ∷ z.0, z.1)) (split_text-all_digits xs (ground (arith, e))))

-- A number that is written out is read again.
read_back : (n : ℕ) → n < 2 ^ 31 → atoi (split_text (decimal n)).0 ≡ pos n
read_back n l =
    let e = decimal_on-all_digits n n (omega arith) in
    ap (λ z. atoi z.0) (split_text-all_digits (decimal n) e)
    ∙ atoi-all_digits (decimal n) e
    ∙ ap positive (digits-decimal_on n n (omega arith))
    ∙ int_of-small n l

srv_parse_option-show_setting :
    (cfg : SrvCfg) (x : Setting)
    → is_int x ≡ true
    → srv_parse_option true cfg (some (show_setting x)) ≡ (apply_setting cfg x, true)
unfolding srv_parse_option show_setting apply_setting
srv_parse_option-show_setting cfg (sets_num_threads n) l =
    ap (λ z. (record cfg { num_threads = z }, true)) (read_back n (ground (arith, l)))
srv_parse_option-show_setting cfg (sets_io_size n) l =
    ap (λ z. (record cfg { io_size = z }, true)) (read_back n (ground (arith, l)))
srv_parse_option-show_setting cfg (sets_max_num_conns n) l =
    ap (λ z. (record cfg { max_num_conns = z }, true)) (read_back n (ground (arith, l)))
srv_parse_option-show_setting cfg sets_malloc l = refl
srv_parse_option-show_setting cfg sets_posixshm l = refl
srv_parse_option-show_setting cfg (sets_port n) l =
    ap (λ z. (record cfg { port = z }, true)) (read_back n (ground (arith, l)))
srv_parse_option-show_setting cfg (sets_do_thread_pin n) l =
    ap (λ z. (record cfg { do_thread_pin = z }, true)) (read_back n (ground (arith, l)))
srv_parse_option-show_setting cfg (sets_do_fd_affinity n) l =
    ap (λ z. (record cfg { do_fd_affinity = z }, true)) (read_back n (ground (arith, l)))

-- Where strdup(3) succeeds, any list of settings that is written out as arguments, attrib=value with numbers below
-- 2^31 in decimal digits, is parsed to the configuration with the settings made one after the other, so the last of an
-- option counts.
pub parse_args-show_all :
    (i : ℕ) (cfg : SrvCfg) (xs : List Setting)
    → all_int xs ≡ true
    → parse_args (λ j. true) i cfg (show_all xs) ≡ some (apply_all cfg xs)
unfolding parse_args show_all apply_all all_int
parse_args-show_all i cfg [] l = refl
parse_args-show_all i cfg (x ∷ xs) l =
    ap (λ z. if z.1 then parse_args (λ j. true) (suc i) z.0 (show_all xs) else none)
      (srv_parse_option-show_setting cfg x (ground (arith, l)))
    ∙ parse_args-show_all (suc i) (apply_setting cfg x) xs (ground (arith, l))
