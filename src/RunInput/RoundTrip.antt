-- ===== src/RunInput/RoundTrip.antt =====
-- What a run reads from the envelope that its starter wrote (dbosify/_internal/payloads.py).
use dbosify_py.Prelude.{◌≡◌, ◌≢◌, sym, ap, true, some, List, [], arith, Bool-cases, inl, inr}
use dbosify_py.RunInput.{RunMeta, new_meta, is_empty, wrap_input, unwrap_input}

module _ {P A : Type 0} where
  empty_is_new : (m : RunMeta P A) → m.headers ≢ some [] → is_empty m ≡ true → m ≡ new_meta
  unfolding is_empty
  empty_is_new m h e = ground arith

  -- Arguments and metadata read back as they were written, whether the bare form or the envelope
  -- was chosen; headers that are present are not the empty dict.
  pub unwrap_input-wrap_input :
      (args : List P) (m : RunMeta P A)
      → m.headers ≢ some []
      → unwrap_input (wrap_input args (some m)) ≡ (args, m)
  unfolding wrap_input unwrap_input
  unwrap_input-wrap_input args m h = elim (Bool-cases (is_empty m)) [
    | inl empty ↦
        rw (empty, wrap_input, unwrap_input) (ap (λ n. (args, n)) (sym (empty_is_new m h empty)))
    | inr full ↦ rw (full, wrap_input, unwrap_input)
  ]
