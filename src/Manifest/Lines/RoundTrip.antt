-- ===== src/Manifest/Lines/RoundTrip.antt =====
-- The lines of a manifest, joined by line ends, are its text.
use kd.Common.{
  ◌≡◌, refl, sym, ap, ◌∙◌, some, List, [], ◌∷◌, ◌++◌, map, map-append, append_assoc, append-nil,
  Text, split_unit, join_unit, join-split, join-grow, join-snoc, Lacks, split_unit-Lacks, All,
  All-append,
}
use kd.Manifest.Scalar.{TokType, Token, Format, shown, shown-append}
use kd.Manifest.Json.RoundTrip.{tokenize_manifest_show}
use kd.Manifest.Lines.{
  ManifestLine, Page, blank_line, put_part, put_parts, put_split, put_tokens, lines_of,
  split_manifest_lines,
}

abbrev texts : List ManifestLine → List Text
texts = map (λ l. l.text)

abbrev rendered : Page → Text
rendered page = join_unit b'\n' (texts page.done ++ page.cur.text ∷ [])

text-put_part :
    (p : Text) (type : TokType) (l : ManifestLine) → (put_part p type l).text ≡ l.text ++ p
unfolding put_part
text-put_part [] type l = sym (append-nil l.text)
text-put_part (c ∷ s) type l = refl

-- The text that the parts behind the first add.
abbrev tail_text : List Text → Text
tail_text [] = []
tail_text (p ∷ ps) = b'\n' ∷ (p ++ tail_text ps)

join-tail : (p : Text) (ps : List Text) → join_unit b'\n' (p ∷ ps) ≡ p ++ tail_text ps
unfolding join_unit
join-tail p [] = sym (append-nil p)
join-tail p (q ∷ ps) = ap (λ t. p ++ b'\n' ∷ t) (join-tail q ps)

rendered-put_parts :
    (type : TokType) (ps : List Text) (page : Page)
    → rendered (put_parts type ps page) ≡ rendered page ++ tail_text ps
unfolding put_parts
rendered-put_parts type [] page = sym (append-nil _)
rendered-put_parts type (p ∷ ps) page =
    rendered-put_parts type ps _
    ∙ ap
        (λ (t : List Text).
          join_unit b'\n' (t ++ (put_part p type blank_line).text ∷ []) ++ tail_text ps)
        (map-append (λ (l : ManifestLine). l.text) page.done (page.cur ∷ []))
    ∙ ap (λ (t : Text). t ++ tail_text ps)
        (join-snoc b'\n' (texts page.done) page.cur.text (put_part p type blank_line).text)
    ∙ append_assoc (rendered page) (b'\n' ∷ (put_part p type blank_line).text) (tail_text ps)
    ∙ ap (λ (t : Text). rendered page ++ b'\n' ∷ (t ++ tail_text ps))
        (text-put_part p type blank_line)

rendered-put_split :
    (type : TokType) (ps : List Text) (page : Page)
    → rendered (put_split type ps page) ≡ rendered page ++ join_unit b'\n' ps
unfolding join_unit
rendered-put_split type [] page = sym (append-nil _)
rendered-put_split type (p ∷ ps) page =
    rendered-put_parts type ps _
    ∙ ap (λ (t : Text). join_unit b'\n' (texts page.done ++ t ∷ []) ++ tail_text ps)
        (text-put_part p type page.cur)
    ∙ ap (λ (t : Text). t ++ tail_text ps) (join-grow b'\n' (texts page.done) page.cur.text p)
    ∙ append_assoc (rendered page) p (tail_text ps)
    ∙ ap (λ (t : Text). rendered page ++ t) (sym (join-tail p ps))

rendered-put_tokens :
    (ts : List Token) (page : Page) → rendered (put_tokens ts page) ≡ rendered page ++ shown ts
unfolding put_tokens
rendered-put_tokens [] page = sym (append-nil _)
rendered-put_tokens (t ∷ ts) page =
    rendered-put_tokens ts _
    ∙ ap (λ (r : Text). r ++ shown ts) (rendered-put_split t.type (split_unit b'\n' t.text) page)
    ∙ append_assoc (rendered page) (join_unit b'\n' (split_unit b'\n' t.text)) (shown ts)
    ∙ ap (λ (r : Text). rendered page ++ (r ++ shown ts)) (join-split b'\n' t.text)

-- What holds of each line.
pub record IsLine (l : ManifestLine) : Type 0 where
  pub tokens : shown l.tokens ≡ l.text
  pub single : Lacks b'\n' l.text

put_part-IsLine :
    (p : Text) (type : TokType) (l : ManifestLine)
    → Lacks b'\n' p
    → IsLine l
    → IsLine (put_part p type l)
unfolding put_part
put_part-IsLine [] type l h k = k
put_part-IsLine (c ∷ s) type l h k = record {
  tokens =
      shown-append l.tokens _
      ∙ ap (λ (t : Text). shown l.tokens ++ t) (append-nil (c ∷ s))
      ∙ ap (λ (t : Text). t ++ c ∷ s) k.tokens;
  single = All-append _ l.text (c ∷ s) k.single h;
}

record IsPage (page : Page) : Type 0 where
  done : All IsLine page.done
  cur : IsLine page.cur

blank-IsLine : IsLine blank_line
blank-IsLine = record { tokens = refl; single = tt }

put_parts-IsPage :
    (type : TokType) (ps : List Text) (page : Page)
    → All (Lacks b'\n') ps
    → IsPage page
    → IsPage (put_parts type ps page)
unfolding put_parts
put_parts-IsPage type [] page h k = k
put_parts-IsPage type (p ∷ ps) page h k = put_parts-IsPage type ps _ h.1 (record {
  done = All-append IsLine page.done (page.cur ∷ []) k.done (k.cur, tt);
  cur = put_part-IsLine p type blank_line h.0 blank-IsLine;
})

put_split-IsPage :
    (type : TokType) (ps : List Text) (page : Page)
    → All (Lacks b'\n') ps
    → IsPage page
    → IsPage (put_split type ps page)
put_split-IsPage type [] page h k = k
put_split-IsPage type (p ∷ ps) page h k =
    put_parts-IsPage type ps _ h.1
      (record { done = k.done; cur = put_part-IsLine p type page.cur h.0 k.cur })

put_tokens-IsPage : (ts : List Token) (page : Page) → IsPage page → IsPage (put_tokens ts page)
unfolding put_tokens
put_tokens-IsPage [] page k = k
put_tokens-IsPage (t ∷ ts) page k =
    put_tokens-IsPage ts _
      (put_split-IsPage t.type (split_unit b'\n' t.text) page (split_unit-Lacks b'\n' t.text) k)

-- For every text and both formats `splitManifestLines` returns lines whose texts, joined by line
-- ends, are the input; each line's tokens show that line, and no line holds a line end.
pub split_manifest_lines_show :
    (s : Text) (format : Format)
    → (ls : List ManifestLine) × (split_manifest_lines s format ≡ some ls)
      × (join_unit b'\n' (map (λ l. l.text) ls) ≡ s)
      × All IsLine ls
unfolding split_manifest_lines join_unit
split_manifest_lines_show s format =
    let (ts, e, same) = tokenize_manifest_show s format in
    let page = put_tokens ts (record { done = []; cur = blank_line }) in
    let k =
      put_tokens-IsPage ts (record { done = []; cur = blank_line })
        (record { done = tt; cur = blank-IsLine }) in
    (
      lines_of ts,
      rw (e, split_manifest_lines),
      ap (join_unit b'\n') (map-append (λ (l : ManifestLine). l.text) page.done (page.cur ∷ []))
          ∙ rendered-put_tokens ts (record { done = []; cur = blank_line })
          ∙ same,
      All-append IsLine page.done (page.cur ∷ []) k.done (k.cur, tt),
    )
