-- ===== src/Settings/Env/Keys.antt =====
-- A line that is written is read under the key that it was written for.
use efe_process_monitor.Common.{
  ◌≡◌, refl, Bool, true, false, ◌&&◌, some, [], ◌∷◌, ◌++◌, list_eq, nat_eq, arith, all,
}
use efe_process_monitor.Common.Texts.{Text}
use efe_process_monitor.Settings.Env.{
  is_key_head, is_key_char, is_blank, drop_blanks, span_key, env_key, assignment,
}

abbrev pub is_key : Text → Bool
is_key [] = false
is_key (c ∷ s) = is_key_head c && all is_key_char s

span_key-equals :
    (s v : Text) → all is_key_char s ≡ true → span_key (s ++ (b'=' ∷ v)) ≡ (s, b'=' ∷ v)
unfolding span_key
span_key-equals [] v h = refl
span_key-equals (c ∷ s) v h =
    let k : is_key_char c ≡ true = ground arith in
    let t : all is_key_char s ≡ true = ground arith in simp (k, span_key-equals s v t)

pub env_key-assignment : (k v : Text) → is_key k ≡ true → env_key (assignment k v) ≡ some k
unfolding env_key assignment drop_blanks
env_key-assignment [] v h = ground arith
env_key-assignment (c ∷ s) v h =
    let k : is_key_head c ≡ true = ground arith in
    let b : is_blank c ≡ false = ground arith in
    let t : all is_key_char s ≡ true = ground arith in simp (b, k, span_key-equals s v t)
