-- ===== src/App/Config/Serials.antt =====
-- The bindings of USB serial numbers to iPads, as a map.
use opendisplay_win.Common.{
  if◌then◌else◌, ◌||◌, List, [], ◌∷◌, Bytes, length, equal, equal_iff, ◌≡◌, refl, ◌∙◌, arith,
}
use opendisplay_win.App.Config.{
  Config, is_empty, put_binding, remember_usb_serial_id, find_binding, id_for_usb_serial,
}

length-put_binding :
    (serial id : Bytes) (ss is : List Bytes)
    → length ss ≡ length is
    → length (put_binding serial id ss is).0 ≡ length (put_binding serial id ss is).1
unfolding put_binding
length-put_binding serial id [] [] h = refl
length-put_binding serial id [] (i ∷ is) h = absurd (omega (arith, h))
length-put_binding serial id (s ∷ ss) [] h = absurd (omega (arith, h))
length-put_binding serial id (s ∷ ss) (i ∷ is) h =
    let ih = length-put_binding serial id ss is (omega (arith, h)) in ground arith

find_binding-put_binding :
    (serial id j : Bytes) (ss is : List Bytes)
    → length ss ≡ length is
    → find_binding j (put_binding serial id ss is).0 (put_binding serial id ss is).1
      ≡ (if equal serial j then id else find_binding j ss is)
unfolding put_binding find_binding
find_binding-put_binding serial id j [] [] h = ground arith
find_binding-put_binding serial id j [] (i ∷ is) h = absurd (omega (arith, h))
find_binding-put_binding serial id j (s ∷ ss) [] h = absurd (omega (arith, h))
find_binding-put_binding serial id j (s ∷ ss) (i ∷ is) h =
    let ih = find_binding-put_binding serial id j ss is (omega (arith, h)) in
    ground (arith, equal_iff s serial, equal_iff serial j, equal_iff s j)

-- The lists are in parallel, as Load leaves them.
abbrev pub IsParallel : Config → Type 0
IsParallel c = length c.usb_link_serials ≡ length c.usb_link_ids

remember_usb_serial_id-IsParallel :
    (c : Config) (serial id : Bytes)
    → IsParallel c
    → IsParallel (remember_usb_serial_id c serial id)
unfolding remember_usb_serial_id
remember_usb_serial_id-IsParallel c serial id h =
    ground (arith, length-put_binding serial id c.usb_link_serials c.usb_link_ids)

-- A map, as a function from serial numbers to iPads; no iPad is the empty id.
abbrev pub assign : Bytes → Bytes → (Bytes → Bytes) → Bytes → Bytes
assign serial id f j =
    if is_empty serial || is_empty id then f j else if equal serial j then id else f j

pub id_for_usb_serial-remember :
    (c : Config) (serial id j : Bytes)
    → IsParallel c
    → id_for_usb_serial (remember_usb_serial_id c serial id) j
      ≡ assign serial id (id_for_usb_serial c) j
unfolding remember_usb_serial_id id_for_usb_serial
id_for_usb_serial-remember c serial id [] h = ground (arith, equal_iff serial [])
id_for_usb_serial-remember c serial id (x ∷ j) h =
    ground (arith, find_binding-put_binding serial id (x ∷ j) c.usb_link_serials c.usb_link_ids)

-- What several USB sessions tell, one after the other.
abbrev pub remember_all : List (Bytes × Bytes) → Config → Config
remember_all [] c = c
remember_all ((serial, id) ∷ more) c = remember_all more (remember_usb_serial_id c serial id)

abbrev pub assign_all : List (Bytes × Bytes) → (Bytes → Bytes) → Bytes → Bytes
assign_all [] f = f
assign_all ((serial, id) ∷ more) f = assign_all more (assign serial id f)

assign_all_same :
    (bindings : List (Bytes × Bytes)) (f g : Bytes → Bytes)
    → ((j : Bytes) → f j ≡ g j)
    → (j : Bytes) → assign_all bindings f j ≡ assign_all bindings g j
assign_all_same [] f g h = h
assign_all_same ((serial, id) ∷ more) f g h =
    assign_all_same more (assign serial id f) (assign serial id g) (λ j. ground (arith, h j))

-- From parallel lists, however many serial numbers are remembered and however often, the lists
-- stay parallel and IdForUsbSerial answers as the map that was assigned to in the same order.
pub remember_all_refines :
    (bindings : List (Bytes × Bytes)) (c : Config)
    → IsParallel c
    → IsParallel (remember_all bindings c)
      × ((j : Bytes)
          → id_for_usb_serial (remember_all bindings c) j
            ≡ assign_all bindings (id_for_usb_serial c) j)
remember_all_refines [] c h = (h, λ j. refl)
remember_all_refines ((serial, id) ∷ more) c h =
    let c' = remember_usb_serial_id c serial id in
    let (p, e) = remember_all_refines more c' (remember_usb_serial_id-IsParallel c serial id h) in
    (
      p,
      λ j.
          e j
          ∙ assign_all_same more (id_for_usb_serial c') (assign serial id (id_for_usb_serial c))
              (λ k. id_for_usb_serial-remember c serial id k h) j,
    )
