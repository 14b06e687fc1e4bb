-- ===== src/Proto/Tests.antt =====
-- Concrete messages and lines of the protocol, and its theorems at them.
use airs.Base.{◌≡◌, refl, some, none, inl, inr, [], ◌∷◌, get_elem?, arith, ℕ, ◌+◌, length-replicate}
use airs.Base.Int.{ℤ, pos}
use airs.Base.Text.{Text, codes}
use airs.Base.Decimal.{ok, stoi}
use airs.Host.Sample.{sample, sample-HostLaws, cut_left, cut_right, pieces}
use airs.Proto.Data.{ProtoBase, Msg, Body, FileInfo, Object, set_timetag, aptype_fileinfo}
use airs.Proto.Init.{blank, object_init}
use airs.Proto.Buffer.{init, output_line, output_compacted}
use airs.Proto.Buffer.Retention.{IsRing, outputs, output_line-outputs}
use airs.Proto.Compact.{compact_with, compact_base, join_all, join_kv, field_if}
use airs.Base.Decimal.{decimal, digits}
use airs.Proto.Fields.{fileinfo_fields}
use airs.Proto.Methods.{compact_object, compact_fileinfo}
use airs.Proto.Resolve.{
  resolve, pairs_of, resolve_body, type_part, skip_blanks, after_type, resolve_kv, sort_pair,
  resolve_kv_array, object_site,
}
use airs.Proto.Pairs.{over_pairs}
use airs.Proto.Imaging.{set_object, resolve_object}
use airs.Proto.Sent.{IsAddressed, Arrives, FitsSlot, is_word-IsWord}
use airs.Proto.RoundTrip.{compact, resolve-compact}
use airs.Proto.Lost.{NoPlan, resolve-NoPlan, resolve_capital}

abbrev now : Text
now = codes "2021-03-04T05:06:07"

abbrev base : ProtoBase
base = record blank {
  type = aptype_fileinfo;
  gid = codes "001";
  uid = codes "002";
  cid = codes "003";
}

abbrev info : FileInfo
info = record {
  tmobs = codes "2021-03-04T05:06:00";
  subpath = codes "/data/G001/210304";
  filename = codes "G001_objt_0001.fit";
  filesize = pos 33557760;
}

base-IsAddressed : IsAddressed base
base-IsAddressed = record {
  gid = inr (is_word-IsWord base.gid refl);
  uid = inr (is_word-IsWord base.uid refl);
  cid = inr (is_word-IsWord base.cid refl);
}

init-IsRing : IsRing init
unfolding init
init-IsRing = record { index = omega arith; size = length-replicate {A = ℕ} 10240 0 }

report_fits : FitsSlot (compact sample init now base (Body.fileinfo info))
unfolding compact compact_fileinfo compact_with compact_base output_compacted output_line join_all
    join_kv field_if cut_right fileinfo_fields decimal digits init
report_fits = omega arith

-- A file report goes out and comes in.
resolve-compact_example :
    Arrives sample
      (compact sample init now base (Body.fileinfo info))
      (record { base = set_timetag now base; body = Body.fileinfo info })
resolve-compact_example =
    resolve-compact sample sample-HostLaws init now base (Body.fileinfo info) init-IsRing
      (is_word-IsWord now refl) base-IsAddressed refl
      (
        is_word-IsWord info.tmobs refl,
        is_word-IsWord info.subpath refl,
        is_word-IsWord info.filename refl,
        omega arith,
      )
      report_fits

-- After two more lines the line end of the first one is still in its slot.
output_line-outputs_example :
    get_elem?
      (outputs
        (codes "stop utc=2" ∷ codes "rain value=1" ∷ [])
        (output_line init (codes "start")).0).buff
      ((output_line init (codes "start")).1.at + 5)
    ≡ get_elem? (output_line init (codes "start")).1.text 5
output_line-outputs_example =
    output_line-outputs init (codes "start") (codes "stop utc=2" ∷ codes "rain value=1" ∷ []) 5
      init-IsRing (omega arith) (omega arith, (omega arith, tt)) (omega arith) (omega arith)

-- A line with a plan, and the message that is read from it.
abbrev planned : Text
planned = codes "object plan_sn=7,objname=m31,plan_type=2"

abbrev unplanned : Object ℤ
unplanned = record (object_init sample) { objname = codes "m31" }

abbrev object_msg : Msg (Body ℤ)
object_msg = record { base = record blank { type = codes "object" }; body = Body.object unplanned }

planned-resolve : resolve sample planned ≡ ok (some object_msg)
unfolding resolve pairs_of resolve_body type_part skip_blanks after_type resolve_kv sort_pair
    resolve_kv_array object_site set_object resolve_object over_pairs stoi cut_left cut_right pieces
planned-resolve = refl

resolve-NoPlan_example :
    NoPlan unplanned
    × ((compact_object sample init now
          (some (record { base = object_msg.base; body = unplanned }))).out
        ≡ none)
resolve-NoPlan_example =
    resolve-NoPlan sample planned object_msg unplanned init now planned-resolve refl

resolve_capital_example : resolve sample (codes "Start utc=1") ≡ ok none
resolve_capital_example =
    resolve_capital sample sample-HostLaws b'S' (codes "tart utc=1")
      (inr (inr (inr (inr (inl refl)))))
