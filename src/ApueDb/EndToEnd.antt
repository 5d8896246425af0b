-- ===== src/ApueDb/EndToEnd.antt =====
-- `db_open`, `db_store` and `db_fetch` one after the other.
use personal_project.Common.{◌<◌, [], arith, length}
use personal_project.Decimal.{Bytes}
use personal_project.Decimal.RoundTrip.{EndsDigits}
use personal_project.ApueDb.State.{Db}
use personal_project.ApueDb.Ops.Store.{Fits}
use personal_project.ApueDb.Ops.StoreFetch.{CanAppend}
use personal_project.ApueDb.Open.{Memory, header}
use personal_project.ApueDb.Open.Fresh.{
  IsFresh, chain_offset_bounds, header-chain, header-free, length-header,
}

pub IsFresh-CanAppend :
    {m : Memory} {s : Db} {key text : Bytes}
    → IsFresh m s
    → EndsDigits m.stack
    → Fits header [] key text
    → 0 < length text
    → CanAppend s key text 0
IsFresh-CanAppend {key} h ends fits some_text =
    let b = chain_offset_bounds 137 key (omega arith) in
    record {
      calm = h.calm;
      ends = rw h.stack ends;
      fits = rw (h.idx, h.dat) fits;
      some_text = some_text;
      room = rw (h.nhash, h.hashoff, h.idx) (omega (arith, b.1, length-header));
      chain = rw (h.nhash, h.hashoff, h.idx) (header-chain key);
      free = rw h.idx header-free;
    }
