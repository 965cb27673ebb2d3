-- ===== src/FixParser/Fields.antt =====
-- src/ingest/fix_parser.cpp: the loop of `parse_exec_report` against a message as a list of fields.
use fx_dropcopy_primary_reco.Prelude.{
  ℕ, zero, suc, ◌≤◌, ◌<◌, ◌≡◌, ◌≢◌, refl, ap, ◌∙◌, Option, none, some, List, [], ◌∷◌, ◌++◌, arith,
  length, length-append, All, ==_refl, ==_false,
}
use fx_dropcopy_primary_reco.Prelude.Int.{ℤ}
use fx_dropcopy_primary_reco.Event.{ExecEvent}
use fx_dropcopy_primary_reco.FixParser.{
  Parse, start, apply_field, before, onwards, soh, equals, Turn, after_switch, read_value, read_tag,
  turn, Outcome, parse_loop, finish, finish_option, parse_exec_report,
}
use fx_dropcopy_primary_reco.FixParser.Numbers.{parse_int64}

-- A field: the bytes of its tag and those of its value.
pub record Field : Type 0 where
  pub name : List ℕ
  pub value : List ℕ

abbrev pub Lacks : ℕ → List ℕ → Type 0
Lacks c xs = All (λ x. x ≢ c) xs

-- What a field's text can hold: no '=' in the tag, no SOH in the value.
abbrev pub IsField : Field → Type 0
IsField f = Lacks equals f.name × Lacks soh f.value

-- A message: each field as tag, '=', value, SOH.
unfoldable pub render_fields : List Field → List ℕ
render_fields [] = []
render_fields (f ∷ fs) = f.name ++ (equals ∷ (f.value ++ (soh ∷ render_fields fs)))

abbrev pub read_tagged : Option ℤ → List ℕ → Parse → Option Parse
read_tagged none value s = none
read_tagged (some tag) value s = apply_field tag value s

-- What one field does: `none` refuses the message.
abbrev pub read_field : Field → Parse → Option Parse
read_field f s = read_tagged (parse_int64 f.name) f.value s

-- The fields in their order, up to the first that is refused.
unfoldable pub read_fields : Parse → List Field → Outcome
read_fields s [] = Outcome.finished s
read_fields s (f ∷ fs) = elim (read_field f s) [
  | none ↦ Outcome.refused s
  | some s' ↦ read_fields s' fs
]

before-append : (c : ℕ) (xs ys : List ℕ) → Lacks c xs → before c (xs ++ (c ∷ ys)) ≡ xs
unfolding before
before-append c [] ys h = rw (==_refl c) refl
before-append c (x ∷ xs) ys h = rw (==_false x c h.0) (ap (λ t. x ∷ t) (before-append c xs ys h.1))

onwards-append : (c : ℕ) (xs ys : List ℕ) → Lacks c xs → onwards c (xs ++ (c ∷ ys)) ≡ c ∷ ys
unfolding onwards
onwards-append c [] ys h = rw (==_refl c) refl
onwards-append c (x ∷ xs) ys h = rw (==_false x c h.0) (onwards-append c xs ys h.1)

read_value-append :
    (s : Parse) (value rest : List ℕ) (o : Option ℤ)
    → Lacks soh value
    → read_value s (value ++ (soh ∷ rest)) o ≡ after_switch s rest (read_tagged o value s)
unfolding read_value after_switch
read_value-append s value rest none h = refl
read_value-append s value rest (some tag) h =
    rw (before-append soh value rest h) rw (onwards-append soh value rest h) refl

-- A turn takes one field.
turn-field :
    (s : Parse) (f : Field) (rest : List ℕ)
    → IsField f
    → turn s (f.name ++ (equals ∷ (f.value ++ (soh ∷ rest)))) ≡ after_switch s rest (read_field f s)
unfolding turn read_tag
turn-field s f rest h =
    rw (before-append equals f.name (f.value ++ (soh ∷ rest)) h.0) rw
      (onwards-append equals f.name (f.value ++ (soh ∷ rest)) h.0)
      (read_value-append s f.value rest (parse_int64 f.name) h.1)

parse_loop-after :
    (fuel : ℕ) (s : Parse) (fs : List Field) (o : Option Parse)
    → ((s' : Parse) → parse_loop fuel s' (render_fields fs) ≡ some (read_fields s' fs))
    → (elim (after_switch s (render_fields fs) o) [
      | Turn.break s' ↦ some (Outcome.finished s')
      | Turn.reject s' ↦ some (Outcome.refused s')
      | Turn.continue s' rest ↦ parse_loop fuel s' rest
    ])
      ≡ some (elim o [ none ↦ Outcome.refused s | some s' ↦ read_fields s' fs ])
unfolding after_switch
parse_loop-after fuel s fs none go = refl
parse_loop-after fuel s fs (some s') go = go s'

parse_loop-turn :
    (fuel : ℕ) (s : Parse) (bytes : List ℕ) (t : Turn)
    → turn s bytes ≡ t
    → parse_loop (suc fuel) s bytes ≡ elim t [
      | Turn.break s' ↦ some (Outcome.finished s')
      | Turn.reject s' ↦ some (Outcome.refused s')
      | Turn.continue s' rest ↦ parse_loop fuel s' rest
    ]
unfolding parse_loop
parse_loop-turn fuel s bytes t h = rw (← h) refl

parse_loop_at_end : (fuel : ℕ) (s : Parse) → parse_loop (suc fuel) s [] ≡ some (Outcome.finished s)
unfolding parse_loop turn read_tag before onwards
parse_loop_at_end fuel s = refl

-- One turn for each field, and one that finds the end.
pub parse_loop-render_fields :
    (fuel : ℕ) (s : Parse) (fs : List Field)
    → All IsField fs
    → length fs < fuel
    → parse_loop fuel s (render_fields fs) ≡ some (read_fields s fs)
unfolding render_fields read_fields
parse_loop-render_fields zero s fs h small = absurd (omega arith)
parse_loop-render_fields (suc fuel) s [] h small = parse_loop_at_end fuel s
parse_loop-render_fields (suc fuel) s (f ∷ fs) h small =
    parse_loop-turn fuel s (render_fields (f ∷ fs))
      (after_switch s (render_fields fs) (read_field f s)) (turn-field s f (render_fields fs) h.0)
    ∙ (parse_loop-after fuel s fs (read_field f s)
        (λ s'. parse_loop-render_fields fuel s' fs h.1 (omega arith)))

length-render_fields : (fs : List Field) → length fs ≤ length (render_fields fs)
unfolding render_fields
length-render_fields [] = omega arith
length-render_fields (f ∷ fs) = omega (
  arith,
  length-render_fields fs,
  length-append f.name (equals ∷ (f.value ++ (soh ∷ render_fields fs))),
  length-append f.value (soh ∷ render_fields fs),
)

-- Parsing a message made of fields is reading the fields in order, up to the first that is refused,
-- and then checking what has been read.
pub parse_exec_report-render_fields :
    (tsc : ℕ) (fs : List Field) (out : ExecEvent)
    → All IsField fs
    → parse_exec_report tsc (render_fields fs) out ≡ some (finish tsc (read_fields (start out) fs))
unfolding parse_exec_report
parse_exec_report-render_fields tsc fs out h = ap (finish_option tsc) (
    parse_loop-render_fields (suc (length (render_fields fs))) (start out) fs h
      (omega (arith, length-render_fields fs)))
