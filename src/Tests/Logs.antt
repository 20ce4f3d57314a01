-- ===== src/Tests/Logs.antt =====
-- A password in a statement that is logged.
use sql_cli.Base.{Bytes, arith, codes, refl, ◌≡◌}
use sql_cli.Sanitize.{sanitize_sql}
use sql_cli.Sanitize.Hidden.{sanitize_sql_hides}

abbrev update_password : Bytes
update_password = codes "update u set p = "

sanitize_sql_hides_example :
    sanitize_sql (codes "update u set p = 'hunter2' where id = 1")
    ≡ sanitize_sql (codes "update u set p = 'abcdefg' where id = 1")
sanitize_sql_hides_example =
    sanitize_sql_hides update_password (codes "hunter2") (codes "abcdefg") (codes " where id = 1")
      refl (ground arith) (ground arith) refl
