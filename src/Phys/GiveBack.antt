-- ===== src/Phys/GiveBack.antt =====
-- mm/phys.c, `free_physblock_locked`: what its steps leave in the memory.
use zeptux.Base.{
  ℕ, ◌+◌, ◌^◌, ◌<◌, List, ◌≡◌, ◌≢◌, inl, inr, refl, sym, ap, subst, ◌∙◌, ◌==◌, arith, Bool-cases,
}
use zeptux.Phys.{physblock_free, masked_type, Physblock, Phys, span_from, release_block, set_block}
use zeptux.Phys.Free.{put_free}
use zeptux.Phys.Lists.{In, append_to}
use zeptux.Phys.Join.{IsTail}
use zeptux.Phys.Managed.{IsManaged, locked}
use zeptux.Phys.Rejoin.{In-append_to, In-append_to_last}
use zeptux.Phys.Given.{IsLoose, put_free-Put}
use zeptux.Phys.Tiles.{IsTiled}

-- The word of the lock on the whole state.
abbrev pub with_lock : Phys → ℕ → Phys
with_lock m w = record m { state = record m.state { lock = w } }

pub with_lock-IsManaged :
    (m : Phys) (xs : ℕ → List ℕ) (w : ℕ) → IsManaged m xs → IsManaged (with_lock m w) xs
with_lock-IsManaged m xs w ok = record {
  lists = ok.lists;
  block = ok.block;
  apart = ok.apart;
  quiet = ok.quiet;
  count = ok.count;
  total = ok.total;
  bounded = ok.bounded;
}

pub with_lock-IsTiled :
    (m : Phys) (xs : ℕ → List ℕ) (w : ℕ) → IsTiled m xs → IsTiled (with_lock m w) xs
with_lock-IsTiled m xs w tiled q i span =
    let (h, o, own) = tiled q i span in
    (
      h,
      o,
      record {
        small = own.small;
        low = own.low;
        high = own.high;
        aligned = own.aligned;
        order = own.order;
        head_offset = own.head_offset;
        tails = own.tails;
        listed = own.listed;
      },
    )

abbrev pub drop_count : Phys → ℕ → Phys
drop_count m p = set_block m p (record (m.blocks p) { refcount = 0 })

-- All that matters of a physblock stays when its count becomes 0.
pub record Alike (a b : Physblock) : Type 0 where
  pub type : a.type ≡ b.type
  pub order : a.order ≡ b.order
  pub head_offset : a.head_offset ≡ b.head_offset
  pub lock : a.lock ≡ b.lock

pub drop_count-Alike : (m : Phys) (p q : ℕ) → Alike ((drop_count m p).blocks q) (m.blocks q)
drop_count-Alike m p q = elim (Bool-cases (q == p)) [
  | inl e ↦
      let same : q ≡ p = ground arith in
      record {
        type = ground arith;
        order = ground arith;
        head_offset = ground arith;
        lock = ground arith;
      }
  | inr e ↦ record {
    type = ground arith;
    order = ground arith;
    head_offset = ground arith;
    lock = ground arith;
  }
]

pub drop_count-IsManaged :
    (m : Phys) (xs : ℕ → List ℕ) (p : ℕ) → IsManaged m xs → IsManaged (drop_count m p) xs
drop_count-IsManaged m xs p ok = record {
  lists = ok.lists;
  block = λ i q le at.
      let free = ok.block i q le at in
      let like = drop_count-Alike m p q in
      record {
        type = like.type ∙ free.type;
        order = like.order ∙ free.order;
        head_offset = like.head_offset ∙ free.head_offset;
        aligned = free.aligned;
        fits = free.fits;
      };
  apart = ok.apart;
  quiet = λ q. (drop_count-Alike m p q).lock ∙ ok.quiet q;
  count = ok.count;
  total = ok.total;
  bounded = ok.bounded;
}

pub drop_count-IsTiled :
    (m : Phys) (xs : ℕ → List ℕ) (p : ℕ) → IsTiled m xs → IsTiled (drop_count m p) xs
drop_count-IsTiled m xs p tiled q i span =
    let (h, o, own) = tiled q i span in
    let like = drop_count-Alike m p h in
    (
      h,
      o,
      record {
        small = own.small;
        low = own.low;
        high = own.high;
        aligned = own.aligned;
        order = like.order ∙ own.order;
        head_offset = like.head_offset ∙ own.head_offset;
        tails = λ r lo hi.
            let tail = own.tails r lo hi in
            let alike = drop_count-Alike m p r in
            record {
              type = alike.type ∙ tail.type;
              head_offset = alike.head_offset ∙ tail.head_offset;
              unlocked = alike.lock ∙ tail.unlocked;
            };
        listed = λ f. own.listed (ap masked_type (sym like.type) ∙ f);
      },
    )

pub drop_count-IsLoose :
    (m : Phys) (xs : ℕ → List ℕ) (p o : ℕ) → IsLoose m xs p o → IsLoose (drop_count m p) xs p o
drop_count-IsLoose m xs p o loose =
    let like = drop_count-Alike m p p in
    record {
      order = like.order ∙ loose.order;
      small = loose.small;
      head_offset = like.head_offset ∙ loose.head_offset;
      aligned = loose.aligned;
      fits = loose.fits;
      apart = loose.apart;
    }

put_free-spans :
    (m : Phys) (p : ℕ) → (release_block (put_free (locked m p) p) p).state.spans ≡ m.state.spans
unfolding release_block put_free
put_free-spans m p = refl

locked_block : (m : Phys) (p : ℕ) → (locked m p).blocks p ≡ record (m.blocks p) { lock = 1 }
locked_block m p = ground arith

locked_other : (m : Phys) (p q : ℕ) → q ≢ p → (locked m p).blocks q ≡ m.blocks q
locked_other m p q ne = ground arith

-- The block at `p` is listed, the others are as before.
pub put_free-IsTiled :
    (m : Phys) (xs : ℕ → List ℕ) (p o : ℕ)
    → IsTiled m xs
    → IsLoose m xs p o
    → IsTiled (release_block (put_free (locked m p) p) p) (append_to xs o p)
put_free-IsTiled m xs p o tiled loose q i span =
    let k = release_block (put_free (locked m p) p) p in
    let (h, j, own) = tiled q i (ap (λ t. span_from t 0 q) (sym (put_free-spans m p)) ∙ span) in
    let put =
      put_free-Put (locked m p) p o
        (ap (λ (b : Physblock). b.order) (locked_block m p) ∙ loose.order) in
    let others : (r : ℕ) → r ≢ p → k.blocks r ≡ m.blocks r =
      λ r ne. put.others r ne ∙ locked_other m p r ne in
    let tails : (r : ℕ) → h < r → r < h + 2 ^ j → IsTail h r (k.blocks r) = λ r lo hi.
      subst (IsTail h r)
        (sym (
          others r (λ e. ground (
            arith,
            (own.tails r lo hi).head_offset,
            loose.head_offset,
            ap (λ t. (m.blocks t).head_offset) e,
          ))))
        (own.tails r lo hi) in
    elim (Bool-cases (h == p)) [
      | inl e ↦
          let same : h ≡ p = ground arith in
          let here : k.blocks h ≡ record (m.blocks h) { type = physblock_free; lock = 0 } =
            subst (λ r. k.blocks r ≡ record (m.blocks r) { type = physblock_free; lock = 0 })
              (sym same)
              (put.block
                ∙ ap (λ (b : Physblock). record b { type = physblock_free; lock = 0 })
                    (locked_block m p)) in
          let size : j ≡ o = sym own.order ∙ ap (λ r. (m.blocks r).order) same ∙ loose.order in
          (
            h,
            j,
            record {
              small = own.small;
              low = own.low;
              high = own.high;
              aligned = own.aligned;
              order = ap (λ (b : Physblock). b.order) here ∙ own.order;
              head_offset = ap (λ (b : Physblock). b.head_offset) here ∙ own.head_offset;
              tails = tails;
              listed = λ f.
                  subst (λ r. In r (append_to xs o p j)) (sym same)
                    (subst (λ t. In p (append_to xs o p t)) (sym size) (In-append_to_last xs o p));
            },
          )
      | inr e ↦
          let here : k.blocks h ≡ m.blocks h = others h (λ z. ground (arith, e, z)) in
          (
            h,
            j,
            record {
              small = own.small;
              low = own.low;
              high = own.high;
              aligned = own.aligned;
              order = ap (λ (b : Physblock). b.order) here ∙ own.order;
              head_offset = ap (λ (b : Physblock). b.head_offset) here ∙ own.head_offset;
              tails = tails;
              listed = λ f.
                  In-append_to xs o p j h
                    (own.listed (ap (λ (b : Physblock). masked_type b.type) (sym here) ∙ f));
            },
          )
    ]
