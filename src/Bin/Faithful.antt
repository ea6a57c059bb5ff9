-- ===== src/Bin/Faithful.antt =====
-- What it means that a value is read back from the bytes that were written for it, whatever stands
-- before and behind them, and how that composes.
use phira_mp.Common.{
  ◌+◌, ◌^◌, ◌≤◌, ◌<◌, ◌≡◌, refl, sym, ap, ◌∙◌, [], ◌++◌, length, drop, length-append, length-drop,
  drop-drop, drop-append, append_assoc, append-nil, arith,
}
use phira_mp.Bin.Reader.{
  ok, Bytes, BinaryReader, Read, ◌>>=◌, pure, new, advance, Write, ◌>>◌, done,
}

-- The reader stands before `rest`.
pub record Left (r : BinaryReader) (rest : Bytes) : Type 0 where
  pub left : drop r.pos r.bytes ≡ rest
  pub inside : r.pos ≤ length r.bytes
  pub fits : length r.bytes < 2 ^ 64

pub Left-room :
    (r : BinaryReader) (rest : Bytes) → Left r rest → r.pos + length rest ≡ length r.bytes
Left-room r rest l = omega (arith, ap length l.left, length-drop r.pos r.bytes, l.inside)

pub Left-advance :
    (r : BinaryReader) (xs ys : Bytes) → Left r (xs ++ ys) → Left (advance r (length xs)) ys
Left-advance r xs ys l = record {
  left =
      sym (drop-drop r.pos (length xs) r.bytes) ∙ ap (drop (length xs)) l.left ∙ drop-append xs ys;
  inside = omega (arith, Left-room r (xs ++ ys) l, length-append xs ys);
  fits = l.fits;
}

-- `m` reads `a` off the bytes `xs` and stops right behind them.
abbrev pub Reads {ℓ} : {A : Type ℓ} → Read A → A → Bytes → Type ℓ
Reads m a xs =
    (r : BinaryReader) (rest : Bytes) → Left r (xs ++ rest) → m r ≡ ok (a, advance r (length xs))

pub Reads-pure {ℓ} : {A : Type ℓ} (a : A) → Reads (pure a) a []
unfolding pure
Reads-pure a r rest l = ap (λ p. ok (a, record r { pos = p })) (omega arith)

pub advance-append :
    (r : BinaryReader) (xs ys : Bytes)
    → advance (advance r (length xs)) (length ys) ≡ advance r (length (xs ++ ys))
advance-append r xs ys =
    let e : r.pos + length xs + length ys ≡ r.pos + length (xs ++ ys) =
      omega (arith, length-append xs ys) in
    ap (λ p. record r { pos = p }) e

pub Reads-bind {ℓ κ} :
    {A : Type ℓ} {B : Type κ} (m : Read A) (f : A → Read B) (a : A) (b : B) (xs ys : Bytes)
    → Reads m a xs
    → Reads (f a) b ys
    → Reads (m >>= f) b (xs ++ ys)
unfolding ◌>>=◌
Reads-bind m f a b xs ys hm hf r rest l =
    rw (hm r (ys ++ rest) before, ◌>>=◌)
      (hf (advance r (length xs)) rest after ∙ ap (λ p. ok (b, p)) (advance-append r xs ys))
  where
    before : Left r (xs ++ (ys ++ rest))
    before = rw (append_assoc xs ys rest) at l

    after : Left (advance r (length xs)) (ys ++ rest)
    after = Left-advance r xs (ys ++ rest) before

-- `f` appends `xs` to the vector.
abbrev pub Writes : Write → Bytes → Type 0
Writes f xs = (w : Bytes) → f w ≡ w ++ xs

-- The bytes of a value, with what the writer and the reader make of it.
pub record Faithful {ℓ} {A : Type ℓ} (m : Read A) (f : Write) (a : A) : Type ℓ where
  pub image : Bytes
  pub writes : Writes f image
  pub reads : Reads m a image

pub Faithful-pure {ℓ} : {A : Type ℓ} (a : A) → Faithful (pure a) done a
unfolding done
Faithful-pure a = record { image = []; writes = λ w. sym (append-nil w); reads = Reads-pure a }

pub Faithful-bind {ℓ κ} :
    {A : Type ℓ} {B : Type κ} {m : Read A} {f g : Write} {a : A} {b : B} (k : A → Read B)
    → Faithful m f a
    → Faithful (k a) g b
    → Faithful (m >>= k) (f >> g) b
unfolding ◌>>◌
Faithful-bind {m} {f} {g} {a} {b} k x y = record {
  image = x.image ++ y.image;
  writes = λ w. rw (x.writes w) (y.writes (w ++ x.image) ∙ append_assoc w x.image y.image);
  reads = Reads-bind m k a b x.image y.image x.reads y.reads;
}

-- A reader's result passed on without writing more.
pub Faithful-end {ℓ κ} :
    {A : Type ℓ} {B : Type κ} {m : Read A} {f : Write} {a : A} {b : B} (k : A → Read B)
    → Faithful m f a
    → k a ≡ pure b
    → Faithful (m >>= k) f b
unfolding ◌>>◌ done
Faithful-end {b} k x e = Faithful-bind {g = done} k x (rw e (Faithful-pure b))

pub Left-new : (bs : Bytes) → length bs < 2 ^ 64 → Left (new bs) bs
unfolding new
Left-new bs h = record { left = refl; inside = omega arith; fits = h }

pub Faithful-new {ℓ} :
    {A : Type ℓ} (m : Read A) (f : Write) (a : A)
    → Faithful m f a
    → length (f []) < 2 ^ 64
    → m (new (f [])) ≡ ok (a, advance (new (f [])) (length (f [])))
Faithful-new m f a c h =
    rw (c.writes [])
      (c.reads (new c.image) [] (rw append-nil (Left-new c.image (rw (c.writes []) at h))))
