-- ===== src/ConfFile/Resolv.antt =====
-- `parse_resolv_conf` of `src/share/config-parser.c`, with `skip_first_word_and_split` of
-- `src/share/string-util.c`, and the writers of two files of `src/share/config-file.c`.
use network_config_manager.Base.{
  ℕ, Bool, true, false, ◌||◌, List, [], ◌∷◌, ◌++◌, Bytes, codes, Option, none, some, ◌==◌,
  if◌then◌else◌,
}
use network_config_manager.CLib.{has_prefix}
use network_config_manager.Glib.{Glib}
use network_config_manager.Outcome.{ok, err, fault, enoent}
use network_config_manager.StringUtil.{str_strip}
use network_config_manager.ConfFile.{Files, Call, pure, ◌>>=◌}

unfoldable pub has_byte : Bytes → ℕ → Bool
has_byte [] c = false
has_byte (x ∷ xs) c = (x == c) || has_byte xs c

-- What is left behind `strspn`: the bytes of the word are a set.
unfoldable pub skip_bytes_of : Bytes → Bytes → Bytes
unfolding has_byte
skip_bytes_of word [] = []
skip_bytes_of word (c ∷ s) =
    let rest = skip_bytes_of word s in if has_byte word c then rest else c ∷ s

-- A vector, or NULL where the line does not begin with the word.
unfoldable pub skip_first_word_and_split : Glib → Bytes → Bytes → Bytes → Option (List Bytes)
skip_first_word_and_split g line first_word sep =
    if has_prefix line first_word
    then some (g.strsplit (str_strip g (skip_bytes_of first_word line)) sep 0)
    else none

abbrev pub Resolv : Type 0
Resolv = Option (List Bytes) × Option (List Bytes)

unfoldable pub is_comment : Bytes → Bool
is_comment [] = true
is_comment (c ∷ s) = (c == b'#') || (c == b';')

abbrev or_kept : Option (List Bytes) → Option (List Bytes) → Option (List Bytes)
or_kept none old = old
or_kept (some new) old = some new

-- A line replaces what a line of its kind gave before it.
unfoldable pub parse_resolv_line : Glib → Bytes → Resolv → Resolv
parse_resolv_line g line r =
    let t = str_strip g line in
    if is_comment t then r else (
      or_kept (skip_first_word_and_split g t (codes "nameserver") (codes " ")) r.0,
      or_kept (skip_first_word_and_split g t (codes "domain") (codes " ")) r.1,
    )

unfoldable pub parse_resolv_lines : Glib → List Bytes → Resolv → Resolv
parse_resolv_lines g [] r = r
parse_resolv_lines g (line ∷ lines) r = parse_resolv_lines g lines (parse_resolv_line g line r)

abbrev resolv_path : Bytes
resolv_path = codes "/etc/resolv.conf"

-- `" %s"` for each.
unfoldable pub each_behind_space : List Bytes → Bytes
each_behind_space [] = []
each_behind_space (x ∷ xs) = b' ' ∷ (x ++ each_behind_space xs)

unfoldable pub resolv_line : Bytes → Option (List Bytes) → Bytes
resolv_line word none = []
resolv_line word (some []) = []
resolv_line word (some (x ∷ xs)) = word ++ (each_behind_space (x ∷ xs) ++ codes "\n")

-- `KEY="value"`, where the value has no quote in front of it.
unfoldable pub proxy_lines : List (Bytes × Option Bytes) → Bytes
proxy_lines [] = []
proxy_lines ((k, none) ∷ rest) = k ++ (codes "=\n" ++ proxy_lines rest)
proxy_lines ((k, some []) ∷ rest) = k ++ (codes "=\"\"\n" ++ proxy_lines rest)
proxy_lines ((k, some (c ∷ v)) ∷ rest) =
    let later = proxy_lines rest in
    if c == b'"'
    then k ++ (codes "=" ++ (c ∷ v) ++ codes "\n" ++ later)
    else k ++ (codes "=\"" ++ (c ∷ v) ++ codes "\"\n" ++ later)

module _ (fs : Files) where
  unfoldable pub parse_resolv_conf : Glib → Call fs Resolv
  parse_resolv_conf g st =
      if fs.exists resolv_path st
      then (◌>>=◌ fs (pure fs (fs.get_contents resolv_path st)) λ contents.
            pure fs (ok (parse_resolv_lines g (g.strsplit contents (codes "\n") 0) (none, none))))
          st
      else (err enoent, st)

  -- The result of the writing is not looked at.
  abbrev written : Bytes → Bytes → Call fs (Unit {0})
  written path text st =
      let (r, st') = fs.set_contents path text st in
      elim r [ ok x ↦ (ok tt, st') | err n ↦ (ok tt, st') | fault ↦ (fault, st') ]

  unfoldable pub write_to_resolv_conf_file :
      Option (List Bytes) → Option (List Bytes) → Call fs (Unit {0})
  write_to_resolv_conf_file dns domains =
      written resolv_path
        (resolv_line (codes "nameserver ") dns ++ resolv_line (codes "domain ") domains)

  -- The table, in the order of its walk.
  unfoldable pub write_to_proxy_conf_file : List (Bytes × Option Bytes) → Call fs (Unit {0})
  write_to_proxy_conf_file table = written (codes "/etc/sysconfig/proxy") (proxy_lines table)
