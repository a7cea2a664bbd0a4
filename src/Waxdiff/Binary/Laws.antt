-- ===== src/Waxdiff/Binary/Laws.antt =====
-- What `check_oracle2` decides.
use wax_mb.Base.{
  ℕ, pos, Text, codes, ◌++◌, ◌+◌, ◌≡◌, ◌↔◌, refl, arith, eq_iff, List, [], ◌∷◌, list_eq, nat_eq,
  int_eq, Option, none, some, ◌==◌, Bool-cases, inl, inr,
}
use wax_mb.Waxdiff.Process.{Files, System, write, impl_run, wax, to_wax, to_wasm}
use wax_mb.Waxdiff.Records.{
  same, Policy, Meta, Outcome, Dirs, Route, native, via_reference, fail, wasm, ladder, Tier,
  invalid, equal,
}
use wax_mb.Waxdiff.Verdict.{CountsOnce, CountsOnce-pass, CountsOnce-fail, verdict_rules}
use wax_mb.Waxdiff.Binary.{
  tiers, drift_of, climb, check_native, check_via_reference, grade_binary, check_oracle2,
  flatten_path,
}

drift_of-CountsOnce :
    (sys : System) (rel : Text) (t : Tier) (out o : Outcome)
    → CountsOnce out o
    → CountsOnce out (drift_of sys rel t o)
drift_of-CountsOnce sys rel (invalid e) out o h = search verdict_rules
drift_of-CountsOnce sys rel equal out o h = search verdict_rules
drift_of-CountsOnce sys rel _ out o h = h

drift_of-passed :
    (sys : System) (rel : Text) (t : Tier) (o : Outcome) → (drift_of sys rel t o).passed ≡ o.passed
drift_of-passed sys rel (invalid e) o = refl
drift_of-passed sys rel equal o = refl
drift_of-passed sys rel _ o = refl

module _ (sys : System) (dirs : Dirs) (files : Files) (rel : Text) (out : Outcome) where
  climb-CountsOnce : (got want : Text) → CountsOnce out (climb sys dirs files rel got want out).0
  unfolding climb
  climb-CountsOnce got want = elim (Bool-cases (sys.sha256 got == want)) [
    | inl e ↦ rw e (CountsOnce-pass out)
    | inr e ↦ rw e (drift_of-CountsOnce sys rel _ out _ (CountsOnce-fail out _))
  ]

  -- The hash alone decides: neither the validator nor the reference can turn a miss into a pass.
  climb-passed :
      (got want : Text)
      → ((climb sys dirs files rel got want out).0.passed ≡ out.passed + 1)
        ↔ (sys.sha256 got ≡ want)
  unfolding climb
  climb-passed got want = ground (
    arith,
    eq_iff (sys.sha256 got) want,
    drift_of-passed sys rel (tiers sys dirs files rel got) (
        fail out (record {
          file = rel;
          oracle = wasm;
          detail = ladder want (sys.sha256 got) (tiers sys dirs files rel got);
        })),
  )

  check_native-CountsOnce :
      (impl : List Text) (path want : Text)
      → CountsOnce out (check_native sys dirs files impl rel path want out)
  unfolding check_native
  check_native-CountsOnce impl path want = search (verdict_rules, climb-CountsOnce)

  grade_binary-CountsOnce :
      (report : Text) (impl : List Text) (path : Text) (r : Route) (sha : Option Text)
      → CountsOnce out (grade_binary sys dirs report files impl rel path r out sha)
  unfolding grade_binary check_via_reference
  grade_binary-CountsOnce report impl path r none = search verdict_rules
  grade_binary-CountsOnce report impl path r (some []) = search verdict_rules
  grade_binary-CountsOnce report impl path native (some (c ∷ s)) =
      check_native-CountsOnce impl path (c ∷ s)
  grade_binary-CountsOnce report impl path via_reference (some (c ∷ s)) = search verdict_rules

-- The file that holds our reprint.
abbrev pub middle : Text → Text → Text
middle report rel = report ++ codes "/tmp/" ++ flatten_path rel

module _ (sys : System) (dirs : Dirs) (report : Text) (files : Files) (impl : List Text)
    (rel path : Text) (meta : Meta) (out : Outcome) (policy : Policy) where
  pub check_oracle2-CountsOnce :
      CountsOnce out (check_oracle2 sys dirs report files impl rel path meta out policy)
  unfolding check_oracle2
  check_oracle2-CountsOnce = search (verdict_rules, grade_binary-CountsOnce)

  -- On the native route, with a golden hash that is not empty, the file passes exactly if the
  -- implementation compiles it and its bytes have that hash: no tier of the ladder below the
  -- hash can turn a miss into a pass.
  pub check_oracle2-passed_native :
      (c : ℕ) (s : Text)
      → (policy.buckets meta.bucket).oracle2 ≡ same
      → policy.oracle2_route ≡ native
      → meta.wasm_sha256 ≡ some (c ∷ s)
      → ((check_oracle2 sys dirs report files impl rel path meta out policy).passed
          ≡ out.passed + 1)
        ↔ (((impl_run sys files impl (to_wasm path)).code ≡ pos 0)
            × (sys.sha256 (impl_run sys files impl (to_wasm path)).out ≡ c ∷ s))
  unfolding check_oracle2
  check_oracle2-passed_native c s m r e =
      let built = impl_run sys files impl (to_wasm path) in
      rw (m, r, e)
        (ground
          (arith, eq_iff built.code (pos 0), climb-passed sys dirs files rel out built.out (c ∷ s)))

  -- On the other route, with a golden hash that is not empty, the file passes exactly if the
  -- implementation reprints it, the reference compiles the reprint, and the bytes have the hash.
  pub check_oracle2-passed_via_reference :
      (c : ℕ) (s : Text)
      → (policy.buckets meta.bucket).oracle2 ≡ same
      → policy.oracle2_route ≡ via_reference
      → meta.wasm_sha256 ≡ some (c ∷ s)
      → let printed = impl_run sys files impl (to_wax path) in
        let built =
          wax sys (write files (middle report rel) printed.out) (to_wasm (middle report rel)) in
        ((check_oracle2 sys dirs report files impl rel path meta out policy).passed
          ≡ out.passed + 1)
        ↔ ((printed.code ≡ pos 0) × (built.code ≡ pos 0) × (sys.sha256 built.out ≡ c ∷ s))
  unfolding check_oracle2
  check_oracle2-passed_via_reference c s m r e =
      let printed = impl_run sys files impl (to_wax path) in
      let built =
        wax sys (write files (middle report rel) printed.out) (to_wasm (middle report rel)) in
      rw (m, r, e)
        (ground (
          arith,
          eq_iff printed.code (pos 0),
          eq_iff built.code (pos 0),
          eq_iff (sys.sha256 built.out) (c ∷ s),
        ))
