-- ===== src/Storage/Damage.antt =====
-- What damage in the file does to a read (`FileFailureStore.read_events`): the file reads as its parts
-- do, one after the other.
use auto_sre.Prelude.{
  ◌≡◌, ◌≢◌, refl, sym, ap, ◌∙◌, ◌⊎◌, inl, inr, true, false, Option, none, some, List, [], ◌∷◌, ◌++◌,
  arith, Option-cases,
}
use auto_sre.Prelude.Int.{ℤ}
use auto_sre.Prelude.Text.{String}
use auto_sre.Storage.Json.{Json, null, bool, num, str, arr, obj, Fields}
use auto_sre.Storage.Event.{FailureEvent, from_dict}
use auto_sre.Storage.FileStore.{
  Codec, ReadResult, ok, attribute_error, prepend, cut, read_value, read_line, read_lines,
  read_events,
}

abbrev joined : ReadResult → ReadResult → ReadResult
joined (ok es) (ok more) = ok (es ++ more)
joined (ok es) attribute_error = attribute_error
joined attribute_error rest = attribute_error

joined-prepend :
    (e : FailureEvent) (r rest : ReadResult) → joined (prepend e r) rest ≡ prepend e (joined r rest)
joined-prepend e (ok es) (ok more) = refl
joined-prepend e (ok es) attribute_error = refl
joined-prepend e attribute_error rest = refl

joined-ok : (rest : ReadResult) → joined (ok []) rest ≡ rest
joined-ok (ok es) = refl
joined-ok attribute_error = refl

joined-error : (r : ReadResult) → joined r attribute_error ≡ attribute_error
joined-error (ok es) = refl
joined-error attribute_error = refl

module _ {L : Type 0} (codec : Codec L) where
  read_value-joined :
      (source : Option String) (value : Json) (r rest : ReadResult)
      → read_value codec source value (joined r rest)
        ≡ joined (read_value codec source value r) rest
  unfolding read_value
  read_value-joined source (obj d) r rest = ground (arith, joined-prepend (from_dict d) r rest)
  read_value-joined source null r rest = refl
  read_value-joined source (bool b) r rest = refl
  read_value-joined source (num n) r rest = refl
  read_value-joined source (str s) r rest = refl
  read_value-joined source (arr xs) r rest = refl

  read_line-joined :
      (source : Option String) (line : L) (r rest : ReadResult)
      → read_line codec source line (joined r rest) ≡ joined (read_line codec source line r) rest
  unfolding read_line
  read_line-joined source line r rest = elim (Option-cases (codec.loads line)) [
    | inl bad ↦ ground arith
    | inr (value, good) ↦ ground (arith, read_value-joined source value r rest)
  ]

  skipped :
      (source : Option String) (after : List L) (line : L)
      → (codec.is_blank line ≡ true) ⊎ (codec.loads line ≡ none)
      → read_lines codec source (line ∷ after) ≡ read_lines codec source after
  unfolding read_lines read_line
  skipped source after line bad = ground arith

  foreign_value :
      (source : Option String) (value : Json) (rest : ReadResult)
      → ((d : Fields) → value ≢ obj d)
      → read_value codec source value rest ≡ attribute_error
  unfolding read_value
  foreign_value source (obj d) rest h = absurd (h d refl)
  foreign_value source null rest h = refl
  foreign_value source (bool b) rest h = refl
  foreign_value source (num n) rest h = refl
  foreign_value source (str s) rest h = refl
  foreign_value source (arr xs) rest h = refl

  broken :
      (source : Option String) (after : List L) (line : L) {value : Json}
      → codec.is_blank line ≡ false
      → codec.loads line ≡ some value
      → ((d : Fields) → value ≢ obj d)
      → read_lines codec source (line ∷ after) ≡ attribute_error
  unfolding read_lines read_line
  broken source after line {value} solid e foreign =
      rw (solid, e) (foreign_value source value (read_lines codec source after) foreign)

  -- Reading two parts of a file one after the other, or both at once, is the same.
  read_lines-append :
      (source : Option String) (xs ys : List L)
      → read_lines codec source (xs ++ ys)
        ≡ joined (read_lines codec source xs) (read_lines codec source ys)
  unfolding read_lines
  read_lines-append source [] ys = sym (joined-ok (read_lines codec source ys))
  read_lines-append source (x ∷ xs) ys =
      ap (read_line codec source x) (read_lines-append source xs ys)
      ∙ read_line-joined source x (read_lines codec source xs) (read_lines codec source ys)

  -- A line that `json.loads` refuses, or that is blank, is passed over wherever it stands: the file
  -- reads as it would without it, with any source and limit.
  damaged_line_skipped :
      (limit : Option ℤ) (source : Option String) (before after : List L) (line : L)
      → (codec.is_blank line ≡ true) ⊎ (codec.loads line ≡ none)
      → read_events codec limit source (some (before ++ line ∷ after))
        ≡ read_events codec limit source (some (before ++ after))
  unfolding read_events
  damaged_line_skipped limit source before after line bad = ap (cut limit) (
      read_lines-append source before (line ∷ after)
      ∙ ap (joined (read_lines codec source before)) (skipped source after line bad)
      ∙ sym (read_lines-append source before after))

  -- A line that is JSON but not an object, a number say, makes every read of the file fail, with
  -- any source and limit.
  pub foreign_line_breaks_read :
      (limit : Option ℤ) (source : Option String) (before after : List L) (line : L) {value : Json}
      → codec.is_blank line ≡ false
      → codec.loads line ≡ some value
      → ((d : Fields) → value ≢ obj d)
      → read_events codec limit source (some (before ++ line ∷ after)) ≡ attribute_error
  unfolding read_events
  foreign_line_breaks_read limit source before after line solid e foreign = ap (cut limit) (
      read_lines-append source before (line ∷ after)
      ∙ ap (joined (read_lines codec source before)) (broken source after line solid e foreign)
      ∙ joined-error (read_lines codec source before))
