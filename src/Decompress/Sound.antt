-- ===== src/Decompress/Sound.antt =====
-- Runs of the decoder of src/trace_debugger.c that only add instructions, and whose errors are those of
-- trdb_decompress_trace.
use trdb.Base.{◌≡◌, sym, ap, ◌∙◌, Bool, true, false, if◌then◌else◌, List, [], ◌++◌}
use mathlib.Core.List.{append-nil, append_assoc}
use trdb.Errors.{
  Status, value, failed, trdb_bad_config, trdb_bad_vma, trdb_nomem, trdb_section_empty,
  trdb_bad_instr,
}
use trdb.Trace.{TrInstr}
use trdb.Decompress.Walk.{Place, Run, going, ended, out_of_fuel, ◌>>=◌, hide_status}

-- The results of trdb_decompress_trace.
pub data DecodeStatus : Status → Type 0 where
  success : DecodeStatus (value 0)
  no_memory : DecodeStatus (failed trdb_nomem)
  empty_section : DecodeStatus (failed trdb_section_empty)
  no_section : DecodeStatus (failed trdb_bad_vma)
  no_instruction : DecodeStatus (failed trdb_bad_instr)
  full_addresses : DecodeStatus (failed trdb_bad_config)

-- The second list starts with the first.
pub record Grown (l m : List TrInstr) : Type 0 where
  pub more : List TrInstr
  pub same : m ≡ l ++ more

pub Grown-refl : (l : List TrInstr) → Grown l l
Grown-refl l = record { more = []; same = sym (append-nil l) }

pub moved : {l m : List TrInstr} → m ≡ l → Grown l m
moved {l} e = record { more = []; same = e ∙ sym (append-nil l) }

pub Grown-trans : (k l m : List TrInstr) → Grown k l → Grown l m → Grown k m
Grown-trans k l m a b = record {
  more = a.more ++ b.more;
  same = b.same ∙ ap (λ x. x ++ b.more) a.same ∙ append_assoc k a.more b.more;
}

-- A run from a list l, with the list of what it leaves.
pub data Sound {A : Type 0} (list_of : A → List TrInstr) (l : List TrInstr) : Run A → Type 0 where
  sound_going : {a : A} → Grown l (list_of a) → Sound list_of l (going a)
  sound_ended :
      {s : Status} {here : Place}
      → DecodeStatus s
      → Grown l here.instr_list
      → Sound list_of l (ended s here)
  sound_fuel : Sound list_of l out_of_fuel

module _ {A B : Type 0} (list_a : A → List TrInstr) (list_b : B → List TrInstr) where
  pub Sound-bind :
      (l : List TrInstr) (a : Run A) (f : A → Run B)
      → Sound list_a l a
      → ((x : A) → Sound list_b (list_a x) (f x))
      → Sound list_b l (a >>= f)
  Sound-bind l (going x) f (sound_going g) next = later (f x) (next x)
    where
      later : (b : Run B) → Sound list_b (list_a x) b → Sound list_b l b
      later (going y) (sound_going h) = sound_going (Grown-trans l (list_a x) _ g h)
      later (ended s here) (sound_ended k h) = sound_ended k (Grown-trans l (list_a x) _ g h)
      later out_of_fuel sound_fuel = sound_fuel
  Sound-bind l (ended s here) f (sound_ended k h) next = sound_ended k h
  Sound-bind l out_of_fuel f sound_fuel next = sound_fuel

  pub Sound-hide_status :
      (l : List TrInstr) (a : Run A) → Sound list_a l a → Sound list_a l (hide_status a)
  Sound-hide_status l (going x) s = s
  Sound-hide_status l (ended s here) (sound_ended k h) = sound_ended success h
  Sound-hide_status l out_of_fuel s = s

pub Sound-if :
    {A : Type 0} {list_of : A → List TrInstr} {l : List TrInstr} (a b : Run A) (c : Bool)
    → Sound list_of l a
    → Sound list_of l b
    → Sound list_of l (if c then a else b)
Sound-if a b true s t = s
Sound-if a b false s t = t
