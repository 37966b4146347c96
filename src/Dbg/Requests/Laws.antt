-- ===== src/Dbg/Requests/Laws.antt =====
-- Requests keep the context well formed; what they add, and that a second one changes nothing.
use trace_cruncher.Base.{
  ℕ, ◌≡◌, ◌≢◌, refl, true, false, List, [], ◌∷◌, Option, none, some, All, arith, inl, inr,
  Bool-cases, ==_self,
}
use trace_cruncher.Base.Int.{ℤ, pos, negsuc}
use trace_cruncher.Text.{Str}
use trace_cruncher.Text.Laws.{str_eq_self}
use trace_cruncher.Alloc.{Mem}
use trace_cruncher.Dbg.Context.{DebugFile, Context}
use trace_cruncher.Dbg.Context.Files.{FileIsValid, IsValid}
use trace_cruncher.Dbg.Requests.{
  holds, has_near, near_request, add_near, add_to_files, add_resolve_vma2name, has_name,
  name_request, add_resolve_name2vma, dbg_trace_add_resolve_symbol,
}

add_near-FileIsValid :
    (f : DebugFile) (vma : ℕ) (cookie : ℤ) (m : Mem)
    → FileIsValid f
    → FileIsValid (add_near f vma cookie m).1
unfolding add_near near_request
add_near-FileIsValid f vma cookie m v = ground arith

add_to_files-FileIsValid :
    (fs : List DebugFile) (vma : ℕ) (cookie : ℤ) (m : Mem)
    → All FileIsValid fs
    → All FileIsValid (add_to_files fs vma cookie m).1
unfolding add_to_files
add_to_files-FileIsValid [] vma cookie m v = tt
add_to_files-FileIsValid (f ∷ fs) vma cookie m v =
    ground
      (arith, add_near-FileIsValid f vma cookie m v.0, add_to_files-FileIsValid fs vma cookie m v.1)

add_resolve_name2vma-IsValid :
    (c : Context) (name : Str) (cookie : ℤ) (m : Mem)
    → IsValid c
    → IsValid (add_resolve_name2vma c name cookie m).1
unfolding add_resolve_name2vma name_request
add_resolve_name2vma-IsValid c name cookie m v = ground arith

-- A request for resolving keeps the context well formed, whether it is added or refused: the counts
-- match the lists, no name is requested twice, and no address twice within a file.
pub add_resolve_symbol-IsValid :
    (c : Context) (vma : ℕ) (name : Option Str) (cookie : ℤ) (m : Mem)
    → IsValid c
    → IsValid (dbg_trace_add_resolve_symbol c vma name cookie m).1
unfolding dbg_trace_add_resolve_symbol add_resolve_vma2name
add_resolve_symbol-IsValid c vma (some name) cookie m v =
    add_resolve_name2vma-IsValid c name cookie m v
add_resolve_symbol-IsValid c vma none cookie m v =
    ground (arith, add_to_files-FileIsValid c.files vma cookie m v.files_valid)

add_near-failed :
    (f : DebugFile) (vma : ℕ) (cookie : ℤ) (m : Mem)
    → (add_near f vma cookie m).0 ≡ false
    → (add_near f vma cookie m).1 ≡ f
unfolding add_near
add_near-failed f vma cookie m = ground arith

add_to_files-failed :
    (fs : List DebugFile) (vma : ℕ) (cookie : ℤ) (m : Mem)
    → (add_to_files fs vma cookie m).0 ≡ false
    → (add_to_files fs vma cookie m).1 ≡ fs
unfolding add_to_files
add_to_files-failed [] vma cookie m h = refl
add_to_files-failed (f ∷ fs) vma cookie m h =
    ground (arith, add_near-failed f vma cookie m, add_to_files-failed fs vma cookie m)

add_near-again :
    (f : DebugFile) (vma : ℕ) (cookie cookie' : ℤ) (m m' : Mem)
    → (add_near f vma cookie m).0 ≡ true
    → add_near (add_near f vma cookie m).1 vma cookie' m' ≡ (true, (add_near f vma cookie m).1, m')
unfolding add_near has_near near_request
add_near-again f vma cookie cookie' m m' h = ground (arith, ==_self vma)

holds-add_near :
    (f : DebugFile) (vma : ℕ) (cookie : ℤ) (m : Mem)
    → holds vma (add_near f vma cookie m).1 ≡ holds vma f
unfolding add_near holds
holds-add_near f vma cookie m = ground arith

add_to_files-again :
    (fs : List DebugFile) (vma : ℕ) (cookie cookie' : ℤ) (m m' : Mem)
    → (add_to_files fs vma cookie m).0 ≡ true
    → add_to_files (add_to_files fs vma cookie m).1 vma cookie' m'
      ≡ (true, (add_to_files fs vma cookie m).1, m')
unfolding add_to_files
add_to_files-again [] vma cookie cookie' m m' h = ground arith
add_to_files-again (f ∷ fs) vma cookie cookie' m m' h = elim (Bool-cases (holds vma f)) [
  | inl e ↦ ground (arith, add_near-again f vma cookie cookie' m m', holds-add_near f vma cookie m)
  | inr e ↦ ground (arith, add_to_files-again fs vma cookie cookie' m m')
]

-- A request that fails returns -1 and leaves the context as it was.
pub add_resolve_symbol-failed :
    (c : Context) (vma : ℕ) (name : Option Str) (cookie : ℤ) (m : Mem)
    → (dbg_trace_add_resolve_symbol c vma name cookie m).0 ≢ pos 0
    → ((dbg_trace_add_resolve_symbol c vma name cookie m).0 ≡ negsuc 0)
      × ((dbg_trace_add_resolve_symbol c vma name cookie m).1 ≡ c)
unfolding dbg_trace_add_resolve_symbol add_resolve_name2vma add_resolve_vma2name
add_resolve_symbol-failed c vma (some name) cookie m h = ground arith
add_resolve_symbol-failed c vma none cookie m h =
    ground (arith, add_to_files-failed c.files vma cookie m)

-- A request that was accepted is there: the same request again, with any cookie, is accepted with no
-- allocation and changes nothing, so the first cookie stays.
pub add_resolve_symbol-again :
    (c : Context) (vma : ℕ) (name : Option Str) (cookie cookie' : ℤ) (m m' : Mem)
    → (dbg_trace_add_resolve_symbol c vma name cookie m).0 ≡ pos 0
    → let d = (dbg_trace_add_resolve_symbol c vma name cookie m).1 in
      dbg_trace_add_resolve_symbol d vma name cookie' m' ≡ (pos 0, d, m')
unfolding dbg_trace_add_resolve_symbol add_resolve_name2vma add_resolve_vma2name name_request
    has_name
add_resolve_symbol-again c vma (some name) cookie cookie' m m' h = ground (arith, str_eq_self name)
add_resolve_symbol-again c vma none cookie cookie' m m' h =
    ground (arith, add_to_files-again c.files vma cookie cookie' m m')
