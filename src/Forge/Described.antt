-- ===== src/Forge/Described.antt =====
-- Which artifacts the manifest of a directory lists.
use wiseorder.Prelude.{
  String, true, false, Bool-cases, ◌≡◌, refl, ap, sym, ◌∙◌, List, [], ◌∷◌, ◌⊎◌, inl, inr, ℕ, length,
  ◌↔◌, subst,
}
use mathlib.Core.List.{Memᴰ}
use mathlib.Core.List.Memᴰ.{head, tail, cases_cons, not-nil}
use wiseorder.Prelude.Sorting.{sort_by-Mem}
use wiseorder.Exec.{Result-cases, ok, err, ok_inj}
use wiseorder.Forge.Config.{Entry}
use wiseorder.Forge.Artifacts.{Artifact, Manifest, sort_entries, artifacts_of, build_manifest}

-- What the manifest says of an entry that is a file with these bytes.
abbrev pub described_as : (List ℕ → String) → Entry → List ℕ → Artifact
described_as sha256 e body = record { name = e.name; bytes = length body; sha256 = sha256 body }

-- The artifact is that of a file of the listing.
pub record FileOf (sha256 : List ℕ → String) (es : List Entry) (a : Artifact) : Type 0 where
  pub entry : Entry
  pub body : List ℕ
  pub listed : Memᴰ entry es
  pub is_file : entry.is_file ≡ true
  pub has_body : entry.body ≡ ok body
  pub is : a ≡ described_as sha256 entry body

module _ (sha256 : List ℕ → String) where
  FileOf-within :
      (es es' : List Entry) (a : Artifact)
      → ((x : Entry) → Memᴰ x es → Memᴰ x es')
      → FileOf sha256 es a
      → FileOf sha256 es' a
  FileOf-within es es' a within f = record {
    entry = f.entry;
    body = f.body;
    listed = within f.entry f.listed;
    is_file = f.is_file;
    has_body = f.has_body;
    is = f.is;
  }

  -- What the loop has done where it returned, by its first entry.
  data Looped (e : Entry) (es : List Entry) (as' : List Artifact) : Type 0 where
    passed_over : e.is_file ≡ false → artifacts_of sha256 es ≡ ok as' → Looped e es as'
    listed_first :
        (body : List ℕ) (rest : List Artifact)
        → e.is_file ≡ true
        → e.body ≡ ok body
        → artifacts_of sha256 es ≡ ok rest
        → as' ≡ described_as sha256 e body ∷ rest
        → Looped e es as'

  artifacts_of-Looped :
      (e : Entry) (es : List Entry) (as' : List Artifact)
      → artifacts_of sha256 (e ∷ es) ≡ ok as'
      → Looped e es as'
  unfolding artifacts_of
  artifacts_of-Looped e es as' h = elim (Bool-cases e.is_file) [
    | inr p ↦ passed_over p (rw p at h)
    | inl p ↦ elim (Result-cases e.body) [
      | inl (x, q) ↦ (let c : err x ≡ ok as' = rw (p, q) at h in cc)
      | inr (body, q) ↦ elim (Result-cases (artifacts_of sha256 es)) [
        | inl (x, r) ↦ (let c : err x ≡ ok as' = rw (p, q, r) at h in cc)
        | inr (rest, r) ↦ listed_first body rest p q r (sym (ok_inj (rw (p, q, r) at h)))
      ]
    ]
  ]

  -- The artifact is that of this entry.
  record Of (e : Entry) (a : Artifact) : Type 0 where
    body : List ℕ
    is_file : e.is_file ≡ true
    has_body : e.body ≡ ok body
    is : a ≡ described_as sha256 e body

  FileOf-first : (e : Entry) (es : List Entry) (a : Artifact) → Of e a → FileOf sha256 (e ∷ es) a
  FileOf-first e es a f = record {
    entry = e;
    body = f.body;
    listed = head refl;
    is_file = f.is_file;
    has_body = f.has_body;
    is = f.is;
  }

  -- An artifact is that of the first entry, or that of a later one.
  FileOf-cases :
      (e : Entry) (es : List Entry) (a : Artifact)
      → FileOf sha256 (e ∷ es) a
      → Of e a ⊎ FileOf sha256 es a
  FileOf-cases e es a f = elim (cases_cons f.listed) [
    | inl p ↦ inl (
        subst (λ x. Of x a) p
          (record { body = f.body; is_file = f.is_file; has_body = f.has_body; is = f.is }))
    | inr t ↦ inr (record {
      entry = f.entry;
      body = f.body;
      listed = t;
      is_file = f.is_file;
      has_body = f.has_body;
      is = f.is;
    })
  ]

  Looped-Mem :
      (e : Entry) (es : List Entry) (as' : List Artifact) (a : Artifact)
      → ((as'' : List Artifact)
          → artifacts_of sha256 es ≡ ok as''
          → Memᴰ a as'' ↔ FileOf sha256 es a)
      → Looped e es as'
      → Memᴰ a as' ↔ FileOf sha256 (e ∷ es) a
  Looped-Mem e es as' a rec (passed_over p q) = (
    λ m. FileOf-within es (e ∷ es) a (λ x. tail) ((rec as' q).0 m),
    λ f. elim (FileOf-cases e es a f) [
      | inl o ↦ (let t : false ≡ true = sym p ∙ o.is_file in cc)
      | inr g ↦ (rec as' q).1 g
    ],
  )
  Looped-Mem e es as' a rec (listed_first body rest p q r s) = (
    λ m. elim (cases_cons (subst (Memᴰ a) s m)) [
      | inl o ↦ FileOf-first e es a (record { body = body; is_file = p; has_body = q; is = o })
      | inr t ↦ FileOf-within es (e ∷ es) a (λ x. tail) ((rec rest r).0 t)
    ],
    λ f. subst (Memᴰ a) (sym s) (elim (FileOf-cases e es a f) [
      | inl o ↦ head (o.is ∙ ap (described_as sha256 e) (ok_inj (sym o.has_body ∙ q)))
      | inr g ↦ tail ((rec rest r).1 g)
    ]),
  )

  artifacts_of-Mem :
      (es : List Entry) (as' : List Artifact)
      → artifacts_of sha256 es ≡ ok as'
      → (a : Artifact) → Memᴰ a as' ↔ FileOf sha256 es a
  unfolding artifacts_of
  artifacts_of-Mem [] as' h a =
      (λ m. absurd (not-nil (subst (Memᴰ a) (sym (ok_inj h)) m)), λ f. absurd (not-nil f.listed))
  artifacts_of-Mem (e ∷ es) as' h a =
      Looped-Mem e es as' a (λ as'' q. artifacts_of-Mem es as'' q a)
        (artifacts_of-Looped e es as' h)

  -- Where the manifest of a directory is made, it lists the artifact of every file of the directory,
  -- with the file's name, number of bytes and SHA-256, and nothing else.
  pub build_manifest-FileOf :
      (entries : List Entry) (dir scenario stamp : String) (m : Manifest)
      → build_manifest sha256 (ok entries) dir scenario stamp ≡ ok m
      → (a : Artifact) → Memᴰ a m.artifacts ↔ FileOf sha256 entries a
  unfolding build_manifest sort_entries
  build_manifest-FileOf entries dir scenario stamp m h a =
      elim (Result-cases (artifacts_of sha256 (sort_entries entries))) [
        | inl (x, q) ↦ (let c : err x ≡ ok m = rw (build_manifest, q) at h in cc)
        | inr (found, q) ↦
            let same : found ≡ m.artifacts =
              ap (λ (x : Manifest). x.artifacts) (ok_inj (rw (build_manifest, q) at h)) in
            let both = artifacts_of-Mem (sort_entries entries) found q a in
            (
              λ t.
                  FileOf-within (sort_entries entries) entries a (λ x. (sort_by-Mem _ x entries).0)
                    (both.0 (subst (Memᴰ a) (sym same) t)),
              λ f. subst (Memᴰ a) same (
                  both.1 (
                    FileOf-within entries (sort_entries entries) a
                      (λ x. (sort_by-Mem _ x entries).1) f)),
            )
      ]
