-- ===== src/Completion/Calls.antt =====
-- internal/llm/client.go: the calls of tools, put together from their fragments.
use Prim.Native.String.{◌++◌ as concat}
use text.Mathlib.TextLemmas.{append-nil, nil-append, append_assoc}
use beeper_tui.Base.{
  ◌≡◌, refl, sym, ap, ◌∙◌, ℤ, pos, negsuc, ℕ, Bool, true, false, String, List, [], ◌∷◌, ◌++◌,
  Option, none, some, Result, ok, error, ◌==◌, eqb, Bool-cases, inl, inr, arith,
}
use beeper_tui.Completion.{Redactor, Decoder, Fragment, Delta}
use beeper_tui.Completion.Stream.{
  Streaming, start, extend, at_call, add_fragment, add_fragments, call_of, on_delta, emit_delta,
  add_content, add_thought, Line, skipped, done, failed, delta, line_of, stream_lines,
}
use beeper_tui.Completion.Lookup.{
  arguments_of, part_for, parts_for, call_of-at_call_same, call_of-at_call_other,
}

-- One fragment appends its part to the call of its index, and nothing to another.
add_fragment-arguments :
    (i : ℕ) (f : Fragment) (st : Streaming)
    → arguments_of (call_of i (add_fragment f st).calls)
      ≡ concat (arguments_of (call_of i st.calls)) (part_for i f)
add_fragment-arguments i f st = by_index f.index
  where
    by_index :
        (n : ℤ)
        → arguments_of (call_of i (add_fragment (record f { index = n }) st).calls)
          ≡ concat (arguments_of (call_of i st.calls)) (part_for i (record f { index = n }))
    by_index (negsuc n) = sym (append-nil _)
    by_index (pos j) = elim (Bool-cases (eqb j i)) [
      | inl here ↦
          let same : j ≡ i = ground arith in
          rw (here) (
            ap (λ k. arguments_of (call_of i (at_call k (extend f) st.calls))) same
            ∙ call_of-at_call_same i f st.calls)
      | inr other ↦
          rw (other)
            (ap arguments_of (call_of-at_call_other i j f st.calls other) ∙ sym (append-nil _))
    ]

add_fragments-arguments :
    (i : ℕ) (fs : List Fragment) (st : Streaming)
    → arguments_of (call_of i (add_fragments fs st).calls)
      ≡ concat (arguments_of (call_of i st.calls)) (parts_for i fs)
unfolding add_fragments
add_fragments-arguments i [] st = sym (append-nil _)
add_fragments-arguments i (f ∷ fs) st =
    add_fragments-arguments i fs (add_fragment f st)
    ∙ ap (λ s. concat s (parts_for i fs)) (add_fragment-arguments i f st)
    ∙ append_assoc _ _ _

parts_for-append :
    (i : ℕ) (fs gs : List Fragment)
    → parts_for i (fs ++ gs) ≡ concat (parts_for i fs) (parts_for i gs)
parts_for-append i [] gs = sym (nil-append _)
parts_for-append i (f ∷ fs) gs =
    ap (concat (part_for i f)) (parts_for-append i fs gs) ∙ sym (append_assoc _ _ _)

module _ (redactor : Option Redactor) (shows thinks : Bool) where
  -- The texts of a delta leave the calls alone.
  emit_delta-calls :
      (o : Option Redactor) (b : Bool) (s : String) (st : Streaming)
      → (emit_delta o b s st).calls ≡ st.calls
  unfolding emit_delta
  emit_delta-calls o false s st = refl
  emit_delta-calls none true s st = refl
  emit_delta-calls (some r) true s st = refl

  add_content-calls :
      (s : String) (st : Streaming) → (add_content redactor shows s st).calls ≡ st.calls
  add_content-calls s st = elim (Bool-cases (s == "")) [
    | inl empty ↦ rw (empty) refl
    | inr full ↦
        rw (full) (emit_delta-calls redactor shows s (record st { content = concat st.content s }))
  ]

  add_thought-calls :
      (b : Bool) (s : String) (st : Streaming) → (add_thought b s st).calls ≡ st.calls
  add_thought-calls true s st = elim (Bool-cases (s == "")) [
    | inl empty ↦ rw (empty) refl
    | inr full ↦ rw (full) refl
  ]
  add_thought-calls false s st = elim (Bool-cases (s == "")) [
    | inl empty ↦ rw (empty) refl
    | inr full ↦ rw (full) refl
  ]

  on_delta-arguments :
      (i : ℕ) (d : Delta) (st : Streaming)
      → arguments_of (call_of i (on_delta redactor shows thinks d st).calls)
        ≡ concat (arguments_of (call_of i st.calls)) (parts_for i d.fragments)
  unfolding on_delta
  on_delta-arguments i d st =
      let shown = add_content redactor shows d.content st in
      let thought = add_thought thinks (concat d.reasoning d.reasoning_content) shown in
      add_fragments-arguments i d.fragments thought
      ∙ ap (λ cs. concat (arguments_of (call_of i cs)) (parts_for i d.fragments))
          (add_thought-calls thinks (concat d.reasoning d.reasoning_content) shown
            ∙ add_content-calls d.content st)

  module _ ⦃decoder : Decoder⦄ where
    -- The fragments of a line and of those after it.
    abbrev pub fragments_of : Line → List Fragment → List Fragment
    fragments_of skipped rest = rest
    fragments_of done rest = []
    fragments_of (failed e) rest = []
    fragments_of (delta d) rest = d.fragments ++ rest

    -- The fragments of the lines up to the end of the stream.
    abbrev pub fragments_in : List String → List Fragment
    fragments_in [] = []
    fragments_in (raw ∷ raws) = fragments_of (line_of raw) (fragments_in raws)

    -- A reply has these arguments for the call.
    HasArguments : ℕ → String → Result Streaming → Type 0
    HasArguments i s (error e) = Unit
    HasArguments i s (ok st) = arguments_of (call_of i st.calls) ≡ s

    HasArguments-same :
        (i : ℕ) (s t : String) (r : Result Streaming)
        → s ≡ t
        → HasArguments i s r
        → HasArguments i t r
    HasArguments-same i s t r same h = rw (sym same) h

    HasArguments-ok :
        (i : ℕ) (s : String) (r r' : Result Streaming)
        → r ≡ r'
        → HasArguments i s r
        → HasArguments i s r'
    HasArguments-ok i s r r' same h = rw (sym same) h

    lines-HasArguments :
        (i : ℕ) (lines : List String) (st : Streaming)
        → HasArguments i
            (concat (arguments_of (call_of i st.calls)) (parts_for i (fragments_in lines)))
            (stream_lines redactor shows thinks lines st)
    unfolding stream_lines HasArguments
    lines-HasArguments i [] st = sym (append-nil _)
    lines-HasArguments i (raw ∷ raws) st =
        by_line (λ st'. lines-HasArguments i raws st') (line_of raw) refl
      where
        by_line :
            ((st' : Streaming)
              → HasArguments i
                  (concat (arguments_of (call_of i st'.calls)) (parts_for i (fragments_in raws)))
                  (stream_lines redactor shows thinks raws st'))
            → (l : Line) → line_of raw ≡ l
            → HasArguments i
                (concat
                  (arguments_of (call_of i st.calls))
                  (parts_for i (fragments_in (raw ∷ raws))))
                (stream_lines redactor shows thinks (raw ∷ raws) st)
        by_line later skipped e = rw (stream_lines, fragments_in, e) (later st)
        by_line later done e = rw (stream_lines, fragments_in, e) (sym (append-nil _))
        by_line later (failed err) e = rw (stream_lines, fragments_in, e) tt
        by_line later (delta d) e =
            rw (stream_lines, fragments_in, e)
              (HasArguments-same i _ _ _
                (ap (λ t. concat t (parts_for i (fragments_in raws))) (on_delta-arguments i d st)
                  ∙ append_assoc _ _ _
                  ∙ ap (concat (arguments_of (call_of i st.calls)))
                      (sym (parts_for-append i d.fragments (fragments_in raws))))
                (later (on_delta redactor shows thinks d st)))

    -- However the server splits a reply into lines and the arguments of its calls into fragments, where
    -- the loop over the lines succeeds the arguments of the call of an index are all of its fragments
    -- one after the other, in the order in which they came.
    pub stream_lines-arguments :
        (i : ℕ) (lines : List String) (end : Streaming)
        → stream_lines redactor shows thinks lines start ≡ ok end
        → arguments_of (call_of i end.calls) ≡ parts_for i (fragments_in lines)
    unfolding HasArguments call_of
    stream_lines-arguments i lines end h =
        HasArguments-ok i _ _ (ok end) h (lines-HasArguments i lines start) ∙ nil-append _
