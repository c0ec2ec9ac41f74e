-- ===== src/GitProxy/Exec/Porcelain.antt =====
-- A push plan as git prints it, for `ParsePushPorcelain` of internal/gitproxy/exec.go.
use muro.Base.{
  ℕ, ◌≡◌, refl, ◌∙◌, false, List, [], ◌∷◌, ◌++◌, Bytes, codes, bytes_eq, has_prefix, contains_byte,
  cut-append, split, split-cons, All, arith, ok,
}
use muro.GitProxy.Exec.{
  RefUpdate, trim_cr, ref_update, parse_line, is_informational, parse_lines, parse_push_porcelain,
}

abbrev tab : ℕ
tab = 9

abbrev newline : ℕ
newline = 10

abbrev return : ℕ
return = 13

-- "<flag>\t<from>:<to>\t<summary>"
unfoldable pub line_of : RefUpdate → Bytes
line_of u = u.flag ++ (tab ∷ ((u.from ++ (b':' ∷ u.to)) ++ (tab ∷ u.summary)))

unfoldable pub print_updates : List RefUpdate → Bytes
unfolding line_of
print_updates [] = codes "Done"
print_updates (u ∷ us) = line_of u ++ (newline ∷ print_updates us)

-- the output for a push to `url`
unfoldable pub print_plan : Bytes → List RefUpdate → Bytes
unfolding print_updates
print_plan url us = (codes "To " ++ url) ++ (newline ∷ print_updates us)

abbrev pub Lacks : ℕ → Bytes → Type 0
Lacks c s = contains_byte s c ≡ false

-- A one-byte flag, and fields that hold none of the separators.
pub record IsPlain (u : RefUpdate) : Type 0 where
  pub mark : ℕ
  pub one_byte : u.flag ≡ mark ∷ []
  pub flag_tab : Lacks tab u.flag
  pub from_tab : Lacks tab u.from
  pub from_colon : Lacks b':' u.from
  pub to_tab : Lacks tab u.to
  pub no_newline : Lacks newline (line_of u)
  pub no_return : Lacks return (line_of u)

trim_cr_plain : (s : Bytes) → Lacks return s → trim_cr s ≡ s
unfolding trim_cr contains_byte
trim_cr_plain [] h = refl
trim_cr_plain (c ∷ s) h = ground (arith, trim_cr_plain s)

Lacks-append : (c : ℕ) (s t : Bytes) → Lacks c s → Lacks c t → Lacks c (s ++ t)
unfolding contains_byte
Lacks-append c [] t h k = k
Lacks-append c (x ∷ s) t h k = ground (arith, Lacks-append c s t)

Lacks-append_left : (c : ℕ) (s t : Bytes) → Lacks c (s ++ t) → Lacks c s
unfolding contains_byte
Lacks-append_left c [] t h = refl
Lacks-append_left c (x ∷ s) t h = ground (arith, Lacks-append_left c s t)

parse_line-line_of : (u : RefUpdate) → IsPlain u → parse_line (line_of u) ≡ ok u
unfolding parse_line line_of
parse_line-line_of u p =
    rw
      (
        cut-append tab u.flag ((u.from ++ (b':' ∷ u.to)) ++ (tab ∷ u.summary)) p.flag_tab,
        parse_line,
      )
      (rw (cut-append tab (u.from ++ (b':' ∷ u.to)) u.summary no_tab, parse_line)
        (rw (cut-append b':' u.from u.to p.from_colon, ref_update)))
  where
    no_tab : Lacks tab (u.from ++ (b':' ∷ u.to))
    no_tab =
        Lacks-append tab u.from (b':' ∷ u.to) p.from_tab
          (unfold contains_byte in ground (arith, p.to_tab))

not_informational : (u : RefUpdate) → IsPlain u → is_informational (line_of u) ≡ false
unfolding is_informational line_of bytes_eq has_prefix
not_informational u p = rw p.one_byte (ground arith)

-- one printed update
parse_lines-cons :
    (u : RefUpdate) (lines : List Bytes) (us : List RefUpdate)
    → IsPlain u
    → parse_lines lines ≡ ok us
    → parse_lines (line_of u ∷ lines) ≡ ok (u ∷ us)
unfolding parse_lines
parse_lines-cons u lines us p h =
    rw (trim_cr_plain (line_of u) p.no_return, not_informational u p, parse_line-line_of u p, h)

parse_updates :
    (us : List RefUpdate) → All IsPlain us → parse_lines (split newline (print_updates us)) ≡ ok us
unfolding print_updates
parse_updates [] h = done
  where
    done : parse_lines (split newline (codes "Done")) ≡ ok []
    done = unfold parse_lines trim_cr is_informational split bytes_eq has_prefix in refl
parse_updates (u ∷ us) h =
    rw (split-cons newline (line_of u) (print_updates us) h.0.no_newline)
      (parse_lines-cons u (split newline (print_updates us)) us h.0 (parse_updates us h.1))

header_skipped :
    (url : Bytes) (lines : List Bytes)
    → Lacks return (codes "To " ++ url)
    → parse_lines ((codes "To " ++ url) ∷ lines) ≡ parse_lines lines
unfolding parse_lines
header_skipped url lines h =
    rw (trim_cr_plain (codes "To " ++ url) h) (unfold has_prefix bytes_eq in refl)

-- The plan that git prints for a push to `url`, header and trailer included, parses to its
-- updates, when every flag is one byte and neither `url` nor a field of an update holds a byte
-- that separates fields or lines.
pub parse-print_plan :
    (url : Bytes) (us : List RefUpdate)
    → Lacks newline url
    → Lacks return url
    → All IsPlain us
    → parse_push_porcelain (print_plan url us) ≡ ok us
unfolding parse_push_porcelain print_plan
parse-print_plan url us h k p =
    rw (split-cons newline (codes "To " ++ url) (print_updates us) (unfold contains_byte in h)) (
      header_skipped url (split newline (print_updates us)) (unfold contains_byte in k)
      ∙ parse_updates us p)
