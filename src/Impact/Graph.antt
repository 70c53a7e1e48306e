-- ===== src/Impact/Graph.antt =====
-- The search of `calculate_blast_radius` (backend/app/engines.py). A confidence is a double from 0.0
-- to 1.0, which stands as its bit pattern: those are ordered as the doubles are.
use Prim.Native.String.{String}
use text.Mathlib.Text.{◌==◌ as str_eq}
use deployguardai.Prelude.{
  ℕ, zero, suc, ◌*◌, ◌^◌, Bool, true, not, ◌&&◌, ◌||◌, Option, none, some, List, [], ◌∷◌, ◌++◌, map,
  leb, ltb, ◌==◌, if◌then◌else◌, any, first, select,
}
use deployguardai.Prelude.Sort.{sort}
use deployguardai.Prelude.Texts.{str_leb}

pub record Node : Type 0 where
  pub id : String
  pub label : String
  pub kind : String
  pub team : String
  pub tier : String
  pub health : String

-- An edge with its defaults, its confidence as `clamp(float(edge["confidence"]), 0.0, 1.0)` gives it.
pub record Edge : Type 0 where
  pub source : String
  pub target : String
  pub relation : String
  pub confidence : ℕ
  pub active : Bool

-- What `distance`, `path_confidence` and `origin` hold for a service.
pub record Mark : Type 0 where
  pub id : String
  pub hops : ℕ
  pub confidence : ℕ
  pub origin : String

pub record Search : Type 0 where
  pub marks : List Mark
  pub queue : List String

-- The bit pattern of 1.0.
abbrev pub full_confidence : ℕ
full_confidence = 1023 * 2 ^ 52

abbrev pub has_mark_id : (id : String) → Mark → Bool
has_mark_id v m = str_eq m.id v

abbrev pub find_mark : (id : String) → List Mark → Option Mark
find_mark v marks = first (has_mark_id v) marks

-- The entries of the three dictionaries for one service are set.
unfoldable pub put_mark : Mark → List Mark → List Mark
put_mark m [] = m ∷ []
put_mark m (x ∷ xs) = if str_eq x.id m.id then m ∷ xs else x ∷ put_mark m xs

abbrev pub is_id : (v w : String) → Bool
is_id v w = str_eq w v

-- The keys of `nodes_by_id`.
unfoldable pub known_ids : List Node → (changed : List String) → List String
known_ids nodes changed = map (λ (n : Node). n.id) nodes ++ changed

abbrev pub is_known : (ids : List String) (v : String) → Bool
is_known ids v = any (is_id v) ids

abbrev pub edge_leb : Edge → Edge → Bool
edge_leb e f =
    if not (str_eq e.target f.target)
    then str_leb e.target f.target
    else str_leb e.relation f.relation

abbrev pub leaves : (source : String) → Edge → Bool
leaves v e = e.active && str_eq e.source v

-- `adjacency.get(source, [])`, sorted.
unfoldable pub outgoing : (source : String) → List Edge → List Edge
outgoing v edges = sort edge_leb (select (leaves v) edges)

-- `is_better`
unfoldable pub is_better : Mark → Option Mark → Bool
is_better c none = true
is_better c (some old) =
    ltb c.hops old.hops || c.hops == old.hops && ltb old.confidence c.confidence

-- A service with better marks gets them and is queued.
unfoldable pub offer : (ids : List String) → Mark → Search → Search
offer ids c s =
    if is_known ids c.id && is_better c (find_mark c.id s.marks)
    then record { marks = put_mark c s.marks; queue = s.queue ++ c.id ∷ [] }
    else s

module _ (mul : ℕ → ℕ → ℕ) where
  -- The marks that an edge offers to its target.
  abbrev pub candidate : Mark → Edge → Mark
  candidate m e = record {
    id = e.target;
    hops = suc m.hops;
    confidence = mul m.confidence e.confidence;
    origin = m.origin;
  }

  -- The source of the edge is in the queue before, so it has marks.
  unfoldable pub relax : (ids : List String) (source : String) → Edge → Search → Search
  relax ids v e s = elim (find_mark v s.marks) [ none ↦ s | some m ↦ offer ids (candidate m e) s ]

  unfoldable pub relax_all : (ids : List String) (source : String) → List Edge → Search → Search
  relax_all ids v [] s = s
  relax_all ids v (e ∷ es) s = relax_all ids v es (relax ids v e s)

  -- One round of `while queue`, behind `queue.popleft()`.
  unfoldable pub visit :
      (ids : List String) → List Edge → (max_hops : ℕ) (source : String) → Search → Search
  visit ids edges max_hops v s = elim (find_mark v s.marks) [
    | none ↦ s
    | some m ↦ if leb max_hops m.hops then s else relax_all ids v (outgoing v edges) s
  ]

  -- `while queue`: the marks at the end, `none` where the fuel is used up.
  unfoldable pub rounds :
      (fuel : ℕ) (ids : List String)
      → List Edge
      → (max_hops : ℕ) → List Mark
      → (queue : List String) → Option (List Mark)
  rounds n ids edges max_hops marks [] = some marks
  rounds zero ids edges max_hops marks (v ∷ rest) = none
  rounds (suc n) ids edges max_hops marks (v ∷ rest) =
      let s = visit ids edges max_hops v record { marks = marks; queue = rest } in
      rounds n ids edges max_hops s.marks s.queue

-- `set(changed_services)`
unfoldable pub distinct_ids : List String → List String
distinct_ids [] = []
distinct_ids (v ∷ vs) = if any (is_id v) vs then distinct_ids vs else v ∷ distinct_ids vs

unfoldable pub sorted_set : List String → List String
sorted_set vs = sort str_leb (distinct_ids vs)

abbrev pub start_mark : (service_id : String) → Mark
start_mark v = record { id = v; hops = 0; confidence = full_confidence; origin = v }

unfoldable pub start : (changed : List String) → Search
start changed = record { marks = map start_mark (sorted_set changed); queue = sorted_set changed }
