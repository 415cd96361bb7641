-- ===== src/Daemon/Publish/Safe.antt =====
-- Publishing in crates/kvm-daemon/src/file_transfer.rs never touches what is there already.
use self_kvm.Common.{
  ℕ, zero, suc, ◌+◌, ◌/◌, ◌%◌, ◌≡◌, ◌≢◌, sym, ap, ◌∙◌, arith, List, [], ◌∷◌, ◌++◌, false, Result,
  ok, err, none, some, ◌=l=◌, =l=_refl, =l=→eq, Bool-cases, Option-cases, inl, inr, ◌⊎◌,
}
use mathlib.Core.Path.{subst}
use self_kvm.Common.Map.{Name, lookup, insert, remove, has, lookup-insert, lookup-remove}
use self_kvm.Core.FileName.{sanitize_filename}
use self_kvm.Core.FileName.Safe.{sanitize_filename-IsSafe}
use self_kvm.Daemon.Publish.{
  Directory, DiskError, already_exists, reserve, rename, publish, alternative, digits, incoming,
}

-- The content is at the name `p`, where nothing was, the temporary name is free, and everything else is
-- as it was.
pub record IsPublished (d d' : Directory) (tmp p : Name) (bytes : List ℕ) : Type 0 where
  pub new_name : lookup p d ≡ none
  pub content : lookup p d' ≡ some bytes
  pub no_rest : lookup tmp d' ≡ none
  pub others : (k : Name) → k ≢ p → k ≢ tmp → lookup k d' ≡ lookup k d

pub different : (a b : Name) → a ≢ b → (a =l= b) ≡ false
different a b h = elim (Bool-cases (a =l= b)) [ inl e ↦ absurd (h (=l=→eq a b e)) | inr e ↦ e ]

-- The directory after a reservation of `p` and a move of `tmp` to it.
after-IsPublished :
    (d : Directory) (tmp p : Name) (bytes : List ℕ)
    → tmp ≢ p
    → lookup tmp d ≡ some bytes
    → lookup p d ≡ none
    → IsPublished d (insert p bytes (remove tmp (insert p [] d))) tmp p bytes
after-IsPublished d tmp p bytes h t e = record {
  new_name = e;
  content = rw (lookup-insert, =l=_refl p);
  no_rest = rw (lookup-insert, different p tmp (λ q. h (sym q)), lookup-remove, =l=_refl tmp);
  others = λ k q r. rw (
    lookup-insert,
    different p k (λ z. q (sym z)),
    lookup-remove,
    different tmp k (λ z. r (sym z)),
    lookup-insert,
    different p k (λ z. q (sym z)),
  );
}

reserve-free : (d : Directory) (p : Name) → lookup p d ≡ none → reserve d p ≡ (insert p [] d, ok tt)
unfolding reserve
reserve-free d p e = rw (e, has)

reserve-taken :
    (d : Directory) (p : Name) (bytes : List ℕ)
    → lookup p d ≡ some bytes
    → reserve d p ≡ (d, err already_exists)
unfolding reserve
reserve-taken d p bytes e = rw (e, has)

rename-found :
    (d : Directory) (from to : Name) (bytes : List ℕ)
    → lookup from d ≡ some bytes
    → rename d from to ≡ (insert to bytes (remove from d), ok tt)
unfolding rename
rename-found d from to bytes e = rw e

kept :
    (d : Directory) (tmp p : Name) (bytes : List ℕ)
    → tmp ≢ p
    → lookup tmp d ≡ some bytes
    → lookup tmp (insert p [] d) ≡ some bytes
kept d tmp p bytes h t = rw (lookup-insert, different p tmp (λ q. h (sym q)), t)

-- A number's digits begin with a digit, so that no name that begins with a dot begins with a number.
digits-first : (fuel n : ℕ) (acc rest s : List ℕ) → b'.' ∷ s ≢ digits fuel n acc ++ rest
digits-first zero n acc rest s e = ground arith
digits-first (suc fuel) n acc rest s e =
    ground (arith, digits-first fuel (n / 10) ((b'0' + n % 10) ∷ acc) rest s)

-- The name that a file waits under is none that it can get.
pub incoming_apart :
    (token : ℕ) (offered name : Name) → sanitize_filename offered ≡ ok name → incoming token ≢ name
incoming_apart token offered name s q =
    (sanitize_filename-IsSafe offered name s).0.no_dot_first _ (sym q)

pub incoming-alternative : (token : ℕ) (name : Name) → incoming token ≢ alternative token name
incoming-alternative token name q = digits-first token token [] (b'-' ∷ name) _ q

abbrev pub Moved : Directory → Name → Name → List ℕ → Directory × Result DiskError Name → Type 0
Moved d tmp p bytes r = r ≡ (insert p bytes (remove tmp (insert p [] d)), ok p)

module _ (d : Directory) (tmp name : Name) (token : ℕ) (bytes : List ℕ)
    (here : lookup tmp d ≡ some bytes) (apart : tmp ≢ name)
    (apart' : tmp ≢ alternative token name) where
  pub publish-free : lookup name d ≡ none → Moved d tmp name bytes (publish d tmp name token)
  unfolding publish
  publish-free e = rw (
    reserve-free d name e,
    rename-found (insert name [] d) tmp name bytes (kept d tmp name bytes apart here),
  )

  publish-alternative :
      (old : List ℕ)
      → lookup name d ≡ some old
      → lookup (alternative token name) d ≡ none
      → Moved d tmp (alternative token name) bytes (publish d tmp name token)
  unfolding publish
  publish-alternative old e f =
      let alt = alternative token name in
      rw (
        reserve-taken d name old e,
        reserve-free d alt f,
        rename-found (insert alt [] d) tmp alt bytes (kept d tmp alt bytes apart' here),
      )

  publish-taken :
      (old other : List ℕ)
      → lookup name d ≡ some old
      → lookup (alternative token name) d ≡ some other
      → publish d tmp name token ≡ (d, err already_exists)
  unfolding publish
  publish-taken old other e f =
      rw (reserve-taken d name old e, reserve-taken d (alternative token name) other f)

published :
    (d : Directory) (tmp p : Name) (bytes : List ℕ) (r : Directory × Result DiskError Name)
    → tmp ≢ p
    → lookup tmp d ≡ some bytes
    → lookup p d ≡ none
    → Moved d tmp p bytes r
    → (q : Name) × (r.1 ≡ ok q) × IsPublished d r.0 tmp q bytes
published d tmp p bytes r h t e m = (
  p,
  ap (λ (x : Directory × Result DiskError Name). x.1) m,
  subst (λ x. IsPublished d x tmp p bytes)
      (sym (ap (λ (x : Directory × Result DiskError Name). x.0) m))
      (after-IsPublished d tmp p bytes h t e),
)

some-none {ℓ} : {A : Type ℓ} {x : A} → ¬ (some x ≡ none)
some-none e = cc e

-- Publishing a file that waits under its token's name, with a name that has been let through: the file
-- is then at that name, or at the alternative one with the token in front, where there was nothing
-- before, its waiting name is gone and every other entry is as it was; or both names are taken, and the
-- directory is as it was and the answer is that the name exists.
pub publish-IsPublished :
    (d : Directory) (token : ℕ) (offered name : Name) (bytes : List ℕ)
    → sanitize_filename offered ≡ ok name
    → lookup (incoming token) d ≡ some bytes
    → ((p : Name) × ((publish d (incoming token) name token).1 ≡ ok p)
        × IsPublished d (publish d (incoming token) name token).0 (incoming token) p bytes)
      ⊎ ((publish d (incoming token) name token ≡ (d, err already_exists))
          × (lookup name d ≢ none)
          × (lookup (alternative token name) d ≢ none))
publish-IsPublished d token offered name bytes s here = elim (Option-cases (lookup name d)) [
  | inl e ↦
      inl
        (published d tmp name bytes _ hn here e (publish-free d tmp name token bytes here hn ha e))
  | inr (old, e) ↦ elim (Option-cases (lookup (alternative token name) d)) [
    | inl f ↦ inl (
        published d tmp (alternative token name) bytes _ ha here f
          (publish-alternative d tmp name token bytes here hn ha old e f))
    | inr (other, f) ↦ inr (
      publish-taken d tmp name token bytes here hn ha old other e f,
      (λ q. some-none (sym e ∙ q)),
      (λ q. some-none (sym f ∙ q)),
    )
  ]
]
  where
    tmp : Name
    tmp = incoming token

    hn : tmp ≢ name
    hn = incoming_apart token offered name s

    ha : tmp ≢ alternative token name
    ha = incoming-alternative token name
