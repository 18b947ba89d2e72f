-- ===== src/ModbusDevice/Copying.antt =====
-- The copy constructor of more_modbus/ModbusDevice.cpp.
use more_modbus.Prelude.{
  zero, suc, ◌+◌, arith, ℕ, ◌≡◌, refl, sym, ap, ◌∙◌, List, [], ◌∷◌, ◌++◌, map, Option, Result, ok,
  ◌>>=◌, length, get_elem?, All, All-imp, All-append, subst, get_elem?-append, get_elem?_last,
}
use mathlib.Core.Option
use mathlib.Core.List.{append_assoc, append-nil}
use more_modbus.Prelude.Int.{ℤ}
use more_modbus.RegisterGroup.{RegisterGroup, Heap, get_mappings_claims}
use more_modbus.RegisterGroup.Copying.{copy_group}
use more_modbus.RegisterGroup.Copying.Order.{IsOrdered}
use more_modbus.RegisterGroup.Copying.Claims.{copy_group-claims}
use more_modbus.ModbusGroupReader.{at, at-some}
use more_modbus.ModbusDevice.{ModbusDevice}

-- The mappings, all groups, and the groups of a copy.
pub record Copies (D : Type 0) : Type 0 where
  pub next : ℕ
  pub heap : Heap D
  pub all_groups : List RegisterGroup
  pub groups : List ℕ

module _ {D : Type 0} where
  -- The loop over the groups of the device that is copied; `done` are the copies so far.
  next_copies : Copies D → RegisterGroup → Copies D
  next_copies s g =
      let c = copy_group s.next s.heap g in
      record {
        next = c.0;
        heap = c.1;
        all_groups = s.all_groups ++ (c.2 ∷ []);
        groups = s.groups ++ (length s.all_groups ∷ []);
      }

  pub copy_groups : Copies D → List ℕ → Result (Copies D)
  unfolding next_copies
  copy_groups s [] = ok s
  copy_groups s (i ∷ rest) = do g ← at s.all_groups i; copy_groups (next_copies s g) rest

  -- ModbusDevice(const ModbusDevice&), in two parts. The slave's address is not among the members
  -- that are set: it is `unset`, whatever the memory held.
  made : ℤ → ModbusDevice → Copies D → ModbusDevice
  made unset device s = record {
    slave_address = unset;
    groups = s.groups;
    rewrite = [];
    reader = device.reader;
  }

  pub copy_device :
      (unset : ℤ) (next : ℕ)
      → Heap D
      → List RegisterGroup
      → ModbusDevice
      → Result (Copies D × ModbusDevice)
  unfolding copy_groups made
  copy_device unset next heap all_groups device = do
    let start : Copies D = record { next = next; heap = heap; all_groups = all_groups; groups = [] }
    s ← copy_groups start device.groups
    ok (s, made unset device s)

abbrev pub claims_at : List RegisterGroup → ℕ → Option (List (List ℕ))
claims_at groups i = Option.map get_mappings_claims (get_elem? groups i)

-- A group that is there, with its claims in the order of its set.
abbrev pub IsGroupAt : List RegisterGroup → ℕ → Type 0
IsGroupAt groups i =
    (g : RegisterGroup) × (get_elem? groups i ≡ Option.some g) × IsOrdered (get_mappings_claims g)

claims_at-append :
    (groups more : List RegisterGroup) (is : List ℕ)
    → All (IsGroupAt groups) is
    → map (claims_at (groups ++ more)) is ≡ map (claims_at groups) is
claims_at-append groups more [] h = refl
claims_at-append groups more (i ∷ is) h =
    let (g, there, _) = h.0 in
    rw (there, get_elem?-append groups more i g there, claims_at-append groups more is h.1) refl

length_last : {A : Type 0} (xs : List A) (x : A) → length (xs ++ (x ∷ [])) ≡ length xs + 1
length_last [] x = refl
length_last (y ∷ xs) x = omega (arith, length_last xs x)

map-append : {A B : Type 0} (f : A → B) (xs ys : List A) → map f (xs ++ ys) ≡ map f xs ++ map f ys
map-append f [] ys = refl
map-append f (x ∷ xs) ys = ap (λ t. f x ∷ t) (map-append f xs ys)

IsGroupAt-append :
    (groups more : List RegisterGroup) (is : List ℕ)
    → All (IsGroupAt groups) is
    → All (IsGroupAt (groups ++ more)) is
IsGroupAt-append groups more is h =
    All-imp (IsGroupAt groups) (IsGroupAt (groups ++ more)) is
      (λ i k. (k.0, get_elem?-append groups more i k.0 k.1, k.2)) h

-- The `n` numbers from `i` on.
abbrev pub numbers : ℕ → ℕ → List ℕ
numbers i zero = []
numbers i (suc n) = i ∷ numbers (i + 1) n

module _ {D : Type 0} where
  -- What the loop adds: a group, at the end of all groups, for each one that is left.
  abbrev AreCopied : Copies D → List ℕ → Copies D → Type 0
  AreCopied s is r =
      ((added : List RegisterGroup) × (length added ≡ length is)
        × (r.all_groups ≡ s.all_groups ++ added))
      × (r.groups ≡ s.groups ++ numbers (length s.all_groups) (length is))
      × (map (claims_at r.all_groups) r.groups
          ≡ map (claims_at s.all_groups) s.groups ++ map (claims_at s.all_groups) is)

  copy_groups_total :
      (s : Copies D) (is : List ℕ)
      → All (IsGroupAt s.all_groups) s.groups
      → All (IsGroupAt s.all_groups) is
      → (r : Copies D) × (copy_groups s is ≡ ok r) × AreCopied s is r
  unfolding copy_groups
  copy_groups_total s [] h k = (
    s,
    refl,
    (
      ([], refl, sym (append-nil s.all_groups)),
      sym (append-nil s.groups),
      sym (append-nil (map (claims_at s.all_groups) s.groups)),
    ),
  )
  copy_groups_total s (i ∷ is) h k =
      let all = s.all_groups in
      let (g, there, ordered) = k.0 in
      let copy = copy_group s.next s.heap g in
      let more : List RegisterGroup = copy.2 ∷ [] in
      let s' : Copies D = record {
        next = copy.0;
        heap = copy.1;
        all_groups = all ++ more;
        groups = s.groups ++ (length all ∷ []);
      } in
      let same = copy_group-claims s.next s.heap g ordered in
      let new : IsGroupAt (all ++ more) (length all) =
        (copy.2, get_elem?_last all (copy.2), subst IsOrdered (sym same) ordered) in
      let (r, e, ((added, size, later), groups, claims)) =
        copy_groups_total s' is
          (All-append (IsGroupAt (all ++ more)) s.groups (length all ∷ [])
            (IsGroupAt-append all more s.groups h) (new, tt))
          (IsGroupAt-append all more is k.1) in
      let claims_new : claims_at (all ++ more) (length all) ≡ claims_at all i =
        rw (get_elem?_last all (copy.2), there) (ap Option.some same) in
      let split = map (claims_at all) s.groups in
      (
        r,
        ap (λ t. t >>= λ g'. copy_groups (next_copies s g') is) (at-some all i g there) ∙ e,
        (
          (copy.2 ∷ added, ap suc size, later ∙ append_assoc all more added),
          groups
              ∙ ap (λ n. (s.groups ++ (length all ∷ [])) ++ numbers n (length is))
                  (length_last all (copy.2))
              ∙ append_assoc s.groups (length all ∷ []) (numbers (length all + 1) (length is)),
          claims
              ∙ ap (λ t. t ++ map (claims_at (all ++ more)) is)
                  (map-append (claims_at (all ++ more)) s.groups (length all ∷ []))
              ∙ ap
                  (λ t.
                    (t ++ (claims_at (all ++ more) (length all) ∷ []))
                    ++ map (claims_at (all ++ more)) is)
                  (claims_at-append all more s.groups h)
              ∙ ap (λ t. (split ++ (t ∷ [])) ++ map (claims_at (all ++ more)) is) claims_new
              ∙ ap (λ t. (split ++ (claims_at all i ∷ [])) ++ t) (claims_at-append all more is k.1)
              ∙ append_assoc split (claims_at all i ∷ []) (map (claims_at all) is),
        ),
      )

  -- A device whose groups are there, each with its claims in the order of its set, is copied. The
  -- groups that there were stay as they are, as many new ones are added behind them, and these are the
  -- copy's groups; each makes the same claims as the device's group in its place.
  pub copy_device_total :
      (unset : ℤ) (next : ℕ) (heap : Heap D) (groups : List RegisterGroup) (device : ModbusDevice)
      → All (IsGroupAt groups) device.groups
      → (r : Copies D × ModbusDevice) × (copy_device unset next heap groups device ≡ ok r)
        × ((added : List RegisterGroup) × (length added ≡ length device.groups)
            × ((r.0).all_groups ≡ groups ++ added))
        × ((r.1).groups ≡ numbers (length groups) (length device.groups))
        × (map (claims_at (r.0).all_groups) (r.1).groups ≡ map (claims_at groups) device.groups)
  unfolding copy_device
  copy_device_total unset next heap groups device h =
      let start : Copies D = record {
        next = next;
        heap = heap;
        all_groups = groups;
        groups = [];
      } in
      let (s, e, (added, numbered, claims)) = copy_groups_total start device.groups tt h in
      (
        (s, made unset device s),
        ap (λ t. t >>= λ s'. ok (s', made unset device s')) e,
        added,
        numbered,
        claims,
      )
