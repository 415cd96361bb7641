-- ===== src/Core/Layout/Links.antt =====
-- `link` of crates/kvm-core/src/layout.rs: what it makes of the adjacency.
use self_kvm.Common.{
  ◌≡◌, refl, sym, ◌∙◌, arith, Bool, true, false, Option, none, some, inl, inr, if◌then◌else◌, ◌≢◌,
  ◌=l=◌, =l=_refl, Bool-cases, =l=→eq,
}
use self_kvm.Common.Map.{Name, lookup, lookup-modify}
use self_kvm.Core.Layout.{
  Edge, left, right, top, bottom, opposite, ScreenNode, ScreenLayout, neighbor, link, link_to,
}
use mathlib.Core.Option

-- The screen that borders `a` on this side.
abbrev pub side : Edge → Option ScreenNode → Option Name
side e none = none
side e (some n) = neighbor n.neighbors e

abbrev pub next_to : ScreenLayout → Name → Edge → Option Name
next_to l a e = side e (lookup a l.nodes)

-- What lies on the other side of a border lies there both ways.
abbrev pub IsSymmetric : ScreenLayout → Type 0
IsSymmetric l = (a b : Name) (e : Edge) → next_to l a e ≡ some b → next_to l b (opposite e) ≡ some a

pub neighbor-set_self :
    (n : ScreenNode) (e : Edge) (b : Name) → neighbor (link_to e b n).neighbors e ≡ some b
neighbor-set_self n left b = refl
neighbor-set_self n right b = refl
neighbor-set_self n top b = refl
neighbor-set_self n bottom b = refl

pub neighbor-set_ne :
    (n : ScreenNode) (e f : Edge) (b : Name)
    → e ≢ f
    → neighbor (link_to e b n).neighbors f ≡ neighbor n.neighbors f
neighbor-set_ne n e f b h = ground arith

different : (a b : Name) → a ≢ b → (a =l= b) ≡ false
different a b h = elim (Bool-cases (a =l= b)) [ inl e ↦ absurd (h (=l=→eq a b e)) | inr e ↦ e ]

lookup-link :
    (l : ScreenLayout) (a b k : Name) (e : Edge)
    → lookup k (link l a e b).nodes ≡ (
        if b =l= k
        then Option.map
            (link_to (opposite e) a)
            (if a =l= k then Option.map (link_to e b) (lookup k l.nodes) else lookup k l.nodes)
        else if a =l= k
        then Option.map (link_to e b) (lookup k l.nodes)
        else lookup k l.nodes)
unfolding link
lookup-link l a b k e = rw (lookup-modify, lookup-modify)

-- Linking adds and removes no screen.
pub link-lookup :
    (l : ScreenLayout) (a b k : Name) (e : Edge) (n : ScreenNode)
    → lookup k l.nodes ≡ some n
    → (n' : ScreenNode) × (lookup k (link l a e b).nodes ≡ some n')
link-lookup l a b k e n h = rw (lookup-link l a b k e, h) (some_either (b =l= k) (a =l= k) n)
  where
    some_either :
        (p q : Bool) (m : ScreenNode)
        → (n' : ScreenNode) × ((if p
              then Option.map
                  (link_to (opposite e) a)
                  (if q then Option.map (link_to e b) (some m) else some m)
              else if q
              then Option.map (link_to e b) (some m)
              else some m)
            ≡ some n')
    some_either true true m = (_, refl)
    some_either true false m = (_, refl)
    some_either false true m = (_, refl)
    some_either false false m = (_, refl)

-- Linking changes the size of no screen.
pub link-size :
    (l : ScreenLayout) (a b k : Name) (e : Edge) (n' : ScreenNode)
    → lookup k (link l a e b).nodes ≡ some n'
    → (n : ScreenNode) × (lookup k l.nodes ≡ some n) × (n'.size ≡ n.size)
link-size l a b k e n' h =
    size_either (b =l= k) (a =l= k) (lookup k l.nodes) (sym (lookup-link l a b k e) ∙ h)
  where
    same_size : (m m' : ScreenNode) → some m ≡ some m' → m'.size ≡ m.size
    same_size m m' q = cc

    size_either :
        (p q : Bool) (o : Option ScreenNode)
        → (if p
            then Option.map (link_to (opposite e) a) (if q then Option.map (link_to e b) o else o)
            else if q
            then Option.map (link_to e b) o
            else o)
          ≡ some n'
        → (n : ScreenNode) × (o ≡ some n) × (n'.size ≡ n.size)
    size_either true true (some m) r = (m, refl, same_size _ _ r)
    size_either true false (some m) r = (m, refl, same_size _ _ r)
    size_either false true (some m) r = (m, refl, same_size _ _ r)
    size_either false false (some m) r = (m, refl, same_size _ _ r)
    size_either true true none r = absurd (cc r)
    size_either true false none r = absurd (cc r)
    size_either false true none r = absurd (cc r)
    size_either false false none r = absurd (cc r)

module _ (l : ScreenLayout) (a b : Name) (e : Edge) (h : a ≢ b) where
  link-first :
      (n : ScreenNode)
      → lookup a l.nodes ≡ some n
      → lookup a (link l a e b).nodes ≡ some (link_to e b n)
  link-first n p = rw (lookup-link, different b a (λ q. h (sym q)), =l=_refl, p)

  link-second :
      (n : ScreenNode)
      → lookup b l.nodes ≡ some n
      → lookup b (link l a e b).nodes ≡ some (link_to (opposite e) a n)
  link-second n p = rw (lookup-link, =l=_refl, different a b h, p)

  link-other : (k : Name) → k ≢ a → k ≢ b → lookup k (link l a e b).nodes ≡ lookup k l.nodes
  link-other k p q =
      rw (lookup-link, different b k (λ r. q (sym r)), different a k (λ r. p (sym r)))

-- For two different screens of the layout `link` puts each on the named side of the other, and
-- leaves every other side of every screen as it was.
pub link-next_to :
    (l : ScreenLayout) (a b : Name) (e : Edge) (na nb : ScreenNode)
    → a ≢ b
    → lookup a l.nodes ≡ some na
    → lookup b l.nodes ≡ some nb
    → (next_to (link l a e b) a e ≡ some b)
      × (next_to (link l a e b) b (opposite e) ≡ some a)
      × ((f : Edge) → f ≢ e → next_to (link l a e b) a f ≡ next_to l a f)
      × ((f : Edge) → f ≢ opposite e → next_to (link l a e b) b f ≡ next_to l b f)
      × ((k : Name) (f : Edge) → k ≢ a → k ≢ b → next_to (link l a e b) k f ≡ next_to l k f)
link-next_to l a b e na nb h ea eb = (
  rw (link-first l a b e h na ea) (neighbor-set_self na e b),
  rw (link-second l a b e h nb eb) (neighbor-set_self nb (opposite e) a),
  λ f n. rw (link-first l a b e h na ea, ea) (neighbor-set_ne na e f b (λ q. n (sym q))),
  λ f n.
      rw (link-second l a b e h nb eb, eb) (neighbor-set_ne nb (opposite e) f a (λ q. n (sym q))),
  λ k f p q. rw (link-other l a b e h k p q),
)

-- Two links on one side of one screen leave the adjacency one way: after linking `a` to `b` and then
-- `c` to `b` over the same edge, `a` still borders `b`, while `b` borders `c` there and not `a`.
pub link-overrides :
    (l : ScreenLayout) (a b c : Name) (e : Edge) (na nb nc : ScreenNode)
    → a ≢ b
    → c ≢ b
    → a ≢ c
    → lookup a l.nodes ≡ some na
    → lookup b l.nodes ≡ some nb
    → lookup c l.nodes ≡ some nc
    → ¬ IsSymmetric (link (link l a e b) c e b)
link-overrides l a b c e na nb nc hab hcb hac ea eb ec sym_all = hac (cc (sym_all a b e still, now))
  where
    l1 : ScreenLayout
    l1 = link l a e b

    still : next_to (link l1 c e b) a e ≡ some b
    still =
        rw (link-other l1 c b e hcb a hac hab, link-first l a b e hab na ea)
          (neighbor-set_self na e b)

    now : next_to (link l1 c e b) b (opposite e) ≡ some c
    now =
        rw (link-second l1 c b e hcb (link_to (opposite e) a nb) (link-second l a b e hab nb eb))
          (neighbor-set_self (link_to (opposite e) a nb) (opposite e) c)
