-- ===== src/Context.antt =====
-- proccontext.go: what a page shows of a process's environment, and the names of systemd units.
pub mod Masked
pub mod Unescaped
use efe_process_monitor.Common.{
  ℕ, zero, suc, ◌+◌, ◌-◌, ◌*◌, Bool, true, false, not, ◌||◌, Option, none, some, [], ◌∷◌, ◌++◌,
  List, list_eq, nat_eq, length, take, drop, ltb, ◌==◌, ◌=?◌, if◌then◌else◌,
}
use efe_process_monitor.Common.Texts.{Text, codes, to_upper, one_of, contains}
use efe_process_monitor.Common.Cuts.{cut, find_text, cut_last}
use efe_process_monitor.Vendor.{from_hex}

abbrev pub sensitive_env_keys : List Text
sensitive_env_keys =
    codes "LD_PRELOAD"
    ∷ codes "LD_LIBRARY_PATH"
    ∷ codes "LD_AUDIT"
    ∷ codes "DYLD_INSERT_LIBRARIES"
    ∷ codes "GLIBC_TUNABLES"
    ∷ codes "COR_PROFILER"
    ∷ codes "COR_ENABLE_PROFILING"
    ∷ codes "CORECLR_PROFILER"
    ∷ codes "CORECLR_ENABLE_PROFILING"
    ∷ codes "PYTHONPATH"
    ∷ codes "PYTHONSTARTUP"
    ∷ codes "PERL5OPT"
    ∷ codes "PERL5LIB"
    ∷ codes "NODE_OPTIONS"
    ∷ codes "JAVA_TOOL_OPTIONS"
    ∷ codes "_JAVA_OPTIONS"
    ∷ codes "RUBYOPT"
    ∷ codes "BASH_ENV"
    ∷ codes "ENV"
    ∷ codes "PROMPT_COMMAND"
    ∷ codes "HTTP_PROXY"
    ∷ codes "HTTPS_PROXY"
    ∷ codes "ALL_PROXY"
    ∷ codes "SOCKS_PROXY"
    ∷ codes "SOCKS5_PROXY"
    ∷ codes "FTP_PROXY"
    ∷ codes "SSL_CERT_FILE"
    ∷ codes "SSL_CERT_DIR"
    ∷ codes "NODE_EXTRA_CA_CERTS"
    ∷ codes "REQUESTS_CA_BUNDLE"
    ∷ codes "CURL_CA_BUNDLE"
    ∷ []

abbrev pub ends_authority : ℕ → Bool
ends_authority c = (c == b'/') || (c == b'?') || (c == b'#')

-- What stands before the first byte that passes the test, and from it on.
unfoldable pub break_at : (ℕ → Bool) → Text → Text × Text
break_at p [] = ([], [])
break_at p (c ∷ s) = let r = break_at p s in if p c then ([], c ∷ s) else (c ∷ r.0, r.1)

abbrev pub scheme_end : Text
scheme_end = codes "://"

-- The text without what stands before the last @ of its authority.
abbrev pub mask_creds : Text → Text → Text → Option (Text × Text) → Text
mask_creds v before tail none = v
mask_creds v before tail (some (creds, host)) =
    before ++ (scheme_end ++ (codes "***@" ++ (host ++ tail)))

abbrev pub mask_authority : Text → Text → Text × Text → Text
mask_authority v before (authority, tail) = mask_creds v before tail (cut_last b'@' authority)

abbrev pub mask_found : Text → Option (Text × Text) → Text
mask_found v none = v
mask_found v (some (before, from)) = mask_authority v before (break_at ends_authority (drop 3 from))

pub mask_url_creds : Text → Text
mask_url_creds v = mask_found v (find_text v scheme_end)

-- The first byte of a character, in UTF-8.
abbrev pub is_rune_start : ℕ → Bool
is_rune_start c = ltb c 128 || not (ltb c 192)

-- []rune(s) and its length, for text that is valid UTF-8.
pub runes : Text → ℕ
runes [] = 0
runes (c ∷ s) = let rest = runes s in if is_rune_start c then suc rest else rest

pub take_runes : ℕ → Text → Text
take_runes n [] = []
take_runes n (c ∷ s) =
    let fewer = take_runes (n - 1) s in
    let same = take_runes n s in
    if not (is_rune_start c) then c ∷ same else if ltb 0 n then c ∷ fewer else []

-- The last three bytes are the ellipsis.
pub truncate_value : Text → ℕ → Text
truncate_value s n = if ltb n (runes s) then take_runes n s ++ (226 ∷ (128 ∷ (166 ∷ []))) else s

abbrev pub shown : Text → Option Text → Option Text
shown k none = none
shown k (some v) =
    if (v =? []) || not (one_of (to_upper k) sensitive_env_keys)
    then none
    else some (k ++ (codes "=" ++ truncate_value (mask_url_creds v) 100))

abbrev pub or_shown : Option Text → List Text → List Text
or_shown none ts = ts
or_shown (some t) ts = t ∷ ts

pub sensitive_env : List Text → List Text
sensitive_env [] = []
sensitive_env (kv ∷ env) = let (k, v) = cut b'=' kv in or_shown (shown k v) (sensitive_env env)

abbrev pub hex_value : Option ℕ → Option ℕ → Option ℕ
hex_value (some h) (some l) = some (16 * h + l)
hex_value _ _ = none

-- The byte that `xHH` stands for, after a backslash.
abbrev pub hex_escape : Text → Option ℕ
hex_escape (x ∷ h ∷ l ∷ s) = if x == b'x' then hex_value (from_hex h) (from_hex l) else none
hex_escape _ = none

-- The count is of the bytes that are still to be skipped.
pub unescape_from : ℕ → Text → Text
unescape_from skip [] = []
unescape_from zero (c ∷ s) =
    if c == b'\\'
    then elim (hex_escape s) [ some n ↦ n ∷ unescape_from 3 s | none ↦ c ∷ unescape_from 0 s ]
    else c ∷ unescape_from 0 s
unescape_from (suc k) (c ∷ s) = unescape_from k s

pub unescape_unit : Text → Text
unescape_unit u = if contains u (codes "\\x") then unescape_from 0 u else u
