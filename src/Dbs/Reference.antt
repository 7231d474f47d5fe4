-- ===== src/Dbs/Reference.antt =====
-- An engine that answers every statement and commits every transaction: the assumptions of
-- `Engine` can be met.
use scalable_e_commerce_plat.Base.{true, refl, inl, ok}
use scalable_e_commerce_plat.Dbs.{Engine, settle}
use scalable_e_commerce_plat.Dbs.Rows.{
  first_row, find_rows, update_rows, update_returning_rows, insert_row, insert_rows, upsert_row,
  save_row, write_row, insert_ignoring_row, delete_rows, count_where, page_rows,
}

abbrev pub reliable : Engine
reliable = record {
  first = λ R. first_row;
  first_replies = λ R p rows. inl refl;
  find = λ R p by limit rows. ok (find_rows p by limit rows);
  find_replies = λ R p by limit rows. inl refl;
  update = λ R. update_rows;
  update_replies = λ R p set fits rows. inl refl;
  update_returning = λ R. update_returning_rows;
  update_returning_replies = λ R p set fits rows. inl refl;
  insert = λ R. insert_row;
  insert_replies = λ R violates row rows. inl refl;
  insert_batch = λ R. insert_rows;
  insert_batch_replies = λ R violates batch rows. inl refl;
  upsert = λ R. upsert_row;
  upsert_replies = λ R same set fits row rows. inl refl;
  count = λ R p rows. ok (count_where p rows);
  count_replies = λ R p rows. inl refl;
  find_page = λ R p by desc limit offset rows. ok (page_rows p by desc limit offset rows);
  find_page_replies = λ R p by desc limit offset rows. inl refl;
  write = λ R. write_row;
  write_replies = λ R refused same violates row rows. inl refl;
  insert_ignoring = λ R. insert_ignoring_row;
  insert_ignoring_replies = λ R refused same violates lacking row rows. inl refl;
  delete = λ R p rows. ok (delete_rows p rows);
  delete_replies = λ R p rows. inl refl;
  save = λ R same row rows. ok (save_row same row rows);
  save_replies = λ R same row rows. inl refl;
  transaction = λ S A body s. settle s (body s);
  transaction_settles = λ S A body s. inl refl;
  calls = λ S A body s. true;
  calls_lem = λ S A body s. inl refl;
}
