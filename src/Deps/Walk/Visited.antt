-- ===== src/Deps/Walk/Visited.antt =====
-- What a visit of the walk keeps, and what one that returns has done.
use the_ozolith.Common.{
  ℕ, ◌≡◌, refl, sym, ap, subst, ◌∙◌, true, false, some, List, [], ◌∷◌, ◌++◌, arith, All, nat_eq,
  string_eq, pair_eq, triple_eq, list_eq, contains, contains-append, nat_beq_iff,
}
use the_ozolith.Common.Table.{Table, find, put, find-put, find-put_self}
use mathlib.Core.List.{append-nil, append_assoc}
use the_ozolith.Deps.{Issue}
use the_ozolith.Deps.Walk.{Walk, pop, leave}

abbrev pub Edges : Type 0
Edges = Table ℕ (List ℕ)

abbrev pub Within : List ℕ → List ℕ → Type 0
Within xs bs = All (λ (b : ℕ). contains xs b ≡ true) bs

-- `n` has recorded edges, and all of them lead into `xs`
abbrev pub Settled : Edges → List ℕ → ℕ → Type 0
Settled edges xs n = (bs : List ℕ) × (find n edges ≡ some bs) × Within xs bs

-- each issue stands once, behind all of its blockers
abbrev pub Topological : Edges → List ℕ → List ℕ → Type 0
Topological edges before [] = Unit
Topological edges before (n ∷ ns) =
    (contains before n ≡ false) × Settled edges before n × Topological edges (before ++ n ∷ []) ns

pub Topological-append :
    (edges : Edges) (before ns : List ℕ) (n : ℕ)
    → Topological edges before ns
    → contains (before ++ ns) n ≡ false
    → Settled edges (before ++ ns) n
    → Topological edges before (ns ++ n ∷ [])
Topological-append edges before [] n t h s =
    (rw append-nil at h, subst (λ xs. Settled edges xs n) (append-nil before) s, tt)
Topological-append edges before (m ∷ ns) n t h s = (
  t.0,
  t.1,
  Topological-append edges (before ++ m ∷ []) ns n t.2
      (subst (λ xs. contains xs n ≡ false) (sym (append_assoc before (m ∷ []) ns)) h)
      (subst (λ xs. Settled edges xs n) (sym (append_assoc before (m ∷ []) ns)) s),
)

-- Recording the edges of an issue that is not in the order leaves it topological.
pub Topological-put :
    (edges : Edges) (before ns : List ℕ) (n : ℕ) (bs : List ℕ)
    → contains ns n ≡ false
    → Topological edges before ns
    → Topological (put n bs edges) before ns
Topological-put edges before [] n bs h t = tt
Topological-put edges before (m ∷ ns) n bs h t = (
  t.0,
  (t.1.0, ground (arith, find-put n m bs edges, nat_beq_iff n m, nat_beq_iff m n, t.1.1), t.1.2),
  Topological-put edges (before ++ m ∷ []) ns n bs (ground arith) t.2,
)

abbrev pub Sub : List ℕ → List ℕ → Type 0
Sub xs ys = (m : ℕ) → contains xs m ≡ true → contains ys m ≡ true

pub Within-Sub : (xs ys : List ℕ) → Sub xs ys → (bs : List ℕ) → Within xs bs → Within ys bs
Within-Sub xs ys sub [] h = tt
Within-Sub xs ys sub (b ∷ bs) h = (sub b h.0, Within-Sub xs ys sub bs h.1)

-- what holds between two visits
pub record IsGood (w : Walk) : Type 0 where
  pub topological : Topological w.edges [] w.order
  pub done_eq : (m : ℕ) → contains w.done m ≡ contains w.order m
  pub apart : (m : ℕ) → contains w.on_path m ≡ true → contains w.order m ≡ false

-- what a visit that returns has done
pub record Visited (w w' : Walk) : Type 0 where
  pub good : IsGood w'
  pub path : w'.on_path ≡ w.on_path
  pub grows : Sub w.order w'.order
  pub kept : (m : ℕ) → contains w.on_path m ≡ true → find m w'.edges ≡ find m w.edges

pub Visited-refl : (w : Walk) → IsGood w → Visited w w
Visited-refl w g = record { good = g; path = refl; grows = λ m h. h; kept = λ m h. refl }

pub Visited-trans : {u v w : Walk} → Visited u v → Visited v w → Visited u w
Visited-trans a b = record {
  good = b.good;
  path = b.path ∙ a.path;
  grows = λ m h. b.grows m (a.grows m h);
  kept = λ m h. b.kept m (subst (λ p. contains p m ≡ true) (sym a.path) h) ∙ a.kept m h;
}

pop-append : (path : List ℕ) (n : ℕ) → pop (path ++ n ∷ []) ≡ path
unfolding pop
pop-append [] n = refl
pop-append (m ∷ []) n = refl
pop-append (m ∷ k ∷ path) n = ap (◌∷◌ m) (pop-append (k ∷ path) n)

-- the state in which the blockers of `n` are visited
abbrev pub entered : Walk → ℕ → Table ℕ Issue → List ℕ → Walk
entered w n t bs = record w { on_path = w.on_path ++ n ∷ []; issues = t; edges = put n bs w.edges }

module _ (w : Walk) (n : ℕ) (g : IsGood w) (fresh_path : contains w.on_path n ≡ false)
    (fresh_done : contains w.done n ≡ false) (t : Table ℕ Issue) (bs : List ℕ) where
  fresh_order : contains w.order n ≡ false
  fresh_order = sym (g.done_eq n) ∙ fresh_done

  pub entered-IsGood : IsGood (entered w n t bs)
  entered-IsGood = record {
    topological = Topological-put w.edges [] w.order n bs fresh_order g.topological;
    done_eq = g.done_eq;
    apart = λ m h.
        ground
          (arith, fresh_order, contains-append w.on_path (n ∷ []) m, nat_beq_iff n m, g.apart m);
  }

  entered_path : contains (entered w n t bs).on_path n ≡ true
  entered_path = ground (arith, contains-append w.on_path (n ∷ []) n, nat_beq_iff n n)

  module _ (v : Walk) (d : Visited (entered w n t bs) v) (all : Within v.order bs) where
    left_apart : contains v.order n ≡ false
    left_apart = d.good.apart n (subst (λ p. contains p n ≡ true) (sym d.path) entered_path)

    left_path : pop v.on_path ≡ w.on_path
    left_path = ap pop d.path ∙ pop-append w.on_path n

    left_Settled : Settled v.edges v.order n
    left_Settled = (bs, d.kept n entered_path ∙ find-put_self n bs w.edges, all)

    leave-IsGood : IsGood (leave n v)
    leave-IsGood = record {
      topological =
          Topological-append v.edges [] v.order n d.good.topological left_apart left_Settled;
      done_eq = λ m. ground (
        arith,
        d.good.done_eq m,
        d.good.done_eq n,
        left_apart,
        contains-append v.done (n ∷ []) m,
        contains-append v.order (n ∷ []) m,
      );
      apart = λ m h. ground (
        arith,
        contains-append v.order (n ∷ []) m,
        nat_beq_iff n m,
        fresh_path,
        ap (λ p. contains p m) left_path,
        ap (λ p. contains p m) d.path,
        contains-append w.on_path (n ∷ []) m,
        d.good.apart m,
      );
    }

    pub leave-Visited : Visited w (leave n v)
    leave-Visited = record {
      good = leave-IsGood;
      path = left_path;
      grows = λ m h. ground (arith, contains-append v.order (n ∷ []) m, d.grows m h);
      kept = λ m h. ground (
        arith,
        contains-append w.on_path (n ∷ []) m,
        d.kept m,
        find-put n m bs w.edges,
        nat_beq_iff n m,
        fresh_path,
        h,
      );
    }

    pub leave_has : contains (leave n v).order n ≡ true
    leave_has = ground (arith, contains-append v.order (n ∷ []) n, nat_beq_iff n n)
