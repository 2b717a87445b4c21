-- ===== src/Hash/Table/Split.antt =====
-- pkg/hash/hashTable.go: the loop of split that moves the entries of a full bucket to a new one.
use recovery_stencil.Prelude.{
  ℕ, suc, ◌+◌, ◌≤◌, ◌<◌, ◌≡◌, refl, sym, ◌∙◌, ap, Bool, true, false, Option, none, some, List, [],
  ◌∷◌, ◌++◌, arith, length, get_elem?, put_at, put_at_end, take, drop, ◌==◌, Bool-cases, ◌>>=◌,
  length-append, inl, inr,
}
use recovery_stencil.Prelude.Int.{ℤ}
use recovery_stencil.Entry.{Entry}
use recovery_stencil.Entry.RoundTrip.{InRange}
use recovery_stencil.Hash.Bucket.{HashBucket, max_bucket_size, modify_entry}
use recovery_stencil.Hash.Bucket.Writes.{Slotted, modify_entry-Slotted}
use recovery_stencil.Hash.Table.{distribute}
use mathlib.Core.Path.{subst}
use mathlib.Core.List.{append-nil, append_assoc}

abbrev has_hash : ℕ → Option ℕ → Bool
has_hash new_hash none = false
has_hash new_hash (some h) = h == new_hash

-- the entries whose hash is the given one, or those whose hash is another, in their order
abbrev pub with_hash : (ℤ → Option ℕ) → ℕ → List Entry → List Entry
with_hash hash_at new_hash [] = []
with_hash hash_at new_hash (e ∷ es) = elim (has_hash new_hash (hash_at e.key)) [
  | true ↦ e ∷ with_hash hash_at new_hash es
  | false ↦ with_hash hash_at new_hash es
]

abbrev pub without_hash : (ℤ → Option ℕ) → ℕ → List Entry → List Entry
without_hash hash_at new_hash [] = []
without_hash hash_at new_hash (e ∷ es) = elim (has_hash new_hash (hash_at e.key)) [
  | true ↦ without_hash hash_at new_hash es
  | false ↦ e ∷ without_hash hash_at new_hash es
]

-- a write to the place behind the first entries, over what is left of the old ones
put_at_behind :
    (ks ss : List Entry) (e : Entry) → put_at (ks ++ ss) (length ks) e ≡ (ks ++ e ∷ []) ++ drop 1 ss
put_at_behind [] [] e = refl
put_at_behind [] (s ∷ ss) e = refl
put_at_behind (k ∷ ks) ss e = ap (λ t. k ∷ t) (put_at_behind ks ss e)

pub take_first : (ks ss : List Entry) → take (length ks) (ks ++ ss) ≡ ks
take_first [] ss = refl
take_first (k ∷ ks) ss = ap (λ t. k ∷ t) (take_first ks ss)

module _ (hash_at : ℤ → Option ℕ) (new_hash : ℕ) (e : Entry) (es : List Entry) (h : ℕ)
    (at : hash_at e.key ≡ some h) where
  abbrev Moving : Type 0
  Moving =
      (with_hash hash_at new_hash (e ∷ es) ≡ e ∷ with_hash hash_at new_hash es)
      × (without_hash hash_at new_hash (e ∷ es) ≡ without_hash hash_at new_hash es)

  abbrev Staying : Type 0
  Staying =
      (with_hash hash_at new_hash (e ∷ es) ≡ with_hash hash_at new_hash es)
      × (without_hash hash_at new_hash (e ∷ es) ≡ e ∷ without_hash hash_at new_hash es)

  moving_lem : (h == new_hash) ≡ true → Moving
  moving_lem moves = (rw (with_hash, at, moves) refl, rw (without_hash, at, moves) refl)

  staying_lem : (h == new_hash) ≡ false → Staying
  staying_lem stays = (rw (with_hash, at, stays) refl, rw (without_hash, at, stays) refl)

  distribute-moving :
      (old new_ w : HashBucket) (n m : ℕ)
      → (h == new_hash) ≡ true
      → modify_entry new_ m e ≡ some w
      → distribute hash_at old new_ new_hash n m (e ∷ es)
        ≡ distribute hash_at old w new_hash n (m + 1) es
  unfolding distribute
  distribute-moving old new_ w n m moves run = rw (at, ◌>>=◌, moves, run) refl

  distribute-staying :
      (old new_ w : HashBucket) (n m : ℕ)
      → (h == new_hash) ≡ false
      → modify_entry old n e ≡ some w
      → distribute hash_at old new_ new_hash n m (e ∷ es)
        ≡ distribute hash_at w new_ new_hash (n + 1) m es
  unfolding distribute
  distribute-staying old new_ w n m stays run = rw (at, ◌>>=◌, stays, run) refl

module _ (pagesize : ℕ) (hash_at : ℤ → Option ℕ) (new_hash : ℕ) where
  -- What a run of the loop returns: buckets whose first slots hold these entries, and their numbers.
  pub record Parted (a c : HashBucket) (ks ms : List Entry)
      (run : Option (HashBucket × HashBucket × ℕ × ℕ)) : Type 0 where
    pub old : HashBucket
    pub new_ : HashBucket
    pub stale : List Entry
    pub runs : run ≡ some (old, new_, length ks, length ms)
    pub olds : Slotted pagesize a (ks ++ stale) old
    pub news : Slotted pagesize c ms new_

  Parted-eq :
      {a c : HashBucket} {ks ks' ms ms' : List Entry}
      {r r' : Option (HashBucket × HashBucket × ℕ × ℕ)}
      → ks' ≡ ks
      → ms' ≡ ms
      → r' ≡ r
      → Parted a c ks ms r
      → Parted a c ks' ms' r'
  Parted-eq k m e p = rw (k, m, e) p

  -- a write behind the first n entries of a bucket
  write_behind :
      {a : HashBucket} (b : HashBucket) (ks ss : List Entry) (e : Entry)
      → Slotted pagesize a (ks ++ ss) b
      → length ks < max_bucket_size pagesize
      → InRange e
      → (w : HashBucket) × (modify_entry b (length ks) e ≡ some w)
        × Slotted pagesize a ((ks ++ e ∷ []) ++ drop 1 ss) w
  write_behind {a} b ks ss e h lt fit =
      let (w, run, h') =
        modify_entry-Slotted b (ks ++ ss) (length ks) e h (omega (arith, length-append ks ss)) lt
          fit in
      (w, run, subst (λ t. Slotted pagesize a t w) (put_at_behind ks ss e) h')

  write_next :
      {a : HashBucket} (b : HashBucket) (ms : List Entry) (e : Entry)
      → Slotted pagesize a ms b
      → length ms < max_bucket_size pagesize
      → InRange e
      → (w : HashBucket) × (modify_entry b (length ms) e ≡ some w)
        × Slotted pagesize a (ms ++ e ∷ []) w
  write_next {a} b ms e h lt fit =
      let (w, run, h') = modify_entry-Slotted b ms (length ms) e h (omega arith) lt fit in
      (w, run, subst (λ t. Slotted pagesize a t w) (put_at_end ms e) h')

  module _ {a c : HashBucket} (old new_ w : HashBucket) (ks ms es : List Entry) (e : Entry) (h : ℕ)
      (at : hash_at e.key ≡ some h) where
    moving_step :
        (h == new_hash) ≡ true
        → modify_entry new_ (length ms) e ≡ some w
        → Parted a c
            (ks ++ without_hash hash_at new_hash es)
            ((ms ++ e ∷ []) ++ with_hash hash_at new_hash es)
            (distribute hash_at old w new_hash (length ks) (length (ms ++ e ∷ [])) es)
        → Parted a c
            (ks ++ without_hash hash_at new_hash (e ∷ es))
            (ms ++ with_hash hash_at new_hash (e ∷ es))
            (distribute hash_at old new_ new_hash (length ks) (length ms) (e ∷ es))
    moving_step moves run next =
        let (with_, without) = moving_lem hash_at new_hash e es h at moves in
        Parted-eq (ap (λ t. ks ++ t) without)
          (ap (λ t. ms ++ t) with_ ∙ sym (append_assoc ms (e ∷ []) (with_hash hash_at new_hash es)))
          (distribute-moving hash_at new_hash e es h at old new_ w (length ks) (length ms) moves run
            ∙ ap (λ (t : ℕ). distribute hash_at old w new_hash (length ks) t es)
                (sym (length-append ms (e ∷ []))))
          next

    staying_step :
        (h == new_hash) ≡ false
        → modify_entry old (length ks) e ≡ some w
        → Parted a c
            ((ks ++ e ∷ []) ++ without_hash hash_at new_hash es)
            (ms ++ with_hash hash_at new_hash es)
            (distribute hash_at w new_ new_hash (length (ks ++ e ∷ [])) (length ms) es)
        → Parted a c
            (ks ++ without_hash hash_at new_hash (e ∷ es))
            (ms ++ with_hash hash_at new_hash (e ∷ es))
            (distribute hash_at old new_ new_hash (length ks) (length ms) (e ∷ es))
    staying_step stays run next =
        let (with_, without) = staying_lem hash_at new_hash e es h at stays in
        Parted-eq
          (ap (λ t. ks ++ t) without
            ∙ sym (append_assoc ks (e ∷ []) (without_hash hash_at new_hash es)))
          (ap (λ t. ms ++ t) with_)
          (distribute-staying hash_at new_hash e es h at old new_ w (length ks) (length ms) stays
              run
            ∙ ap (λ (t : ℕ). distribute hash_at w new_ new_hash t (length ms) es)
                (sym (length-append ks (e ∷ []))))
          next

  -- the entries can be stored, and have a hash
  abbrev pub Hashed : List Entry → Type 0
  Hashed es =
      (i : ℕ) (e : Entry)
      → get_elem? es i ≡ some e
      → InRange e × ((h : ℕ) × (hash_at e.key ≡ some h))

  pub distribute_lem :
      {a c : HashBucket} (old new_ : HashBucket) (ks ss ms es : List Entry)
      → Slotted pagesize a (ks ++ ss) old
      → Slotted pagesize c ms new_
      → length ks + length es ≤ max_bucket_size pagesize
      → length ms + length es ≤ max_bucket_size pagesize
      → Hashed es
      → Parted a c
          (ks ++ without_hash hash_at new_hash es)
          (ms ++ with_hash hash_at new_hash es)
          (distribute hash_at old new_ new_hash (length ks) (length ms) es)
  unfolding distribute
  distribute_lem {a} {c} old new_ ks ss ms [] olds news room room' hashed =
      rw (append-nil ks, append-nil ms)
        (record { old = old; new_ = new_; stale = ss; runs = refl; olds = olds; news = news })
  distribute_lem {a} {c} old new_ ks ss ms (e ∷ es) olds news room room' hashed =
      let (fit, (h, at)) = hashed 0 e refl in
      let rest : Hashed es = λ i. hashed (suc i) in
      elim (Bool-cases (h == new_hash)) [
        | inl moves ↦
            let (w, run, news') = write_next new_ ms e news (omega arith) fit in
            moving_step old new_ w ks ms es e h at moves run (
              distribute_lem old w ks ss (ms ++ e ∷ []) es olds news' (omega arith)
                (omega (arith, length-append ms (e ∷ []))) rest)
        | inr stays ↦
            let (w, run, olds') = write_behind old ks ss e olds (omega arith) fit in
            staying_step old new_ w ks ms es e h at stays run (
              distribute_lem w new_ (ks ++ e ∷ []) (drop 1 ss) ms es olds' news
                (omega (arith, length-append ks (e ∷ []))) (omega arith) rest)
      ]
