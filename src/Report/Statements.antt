-- ===== src/Report/Statements.antt =====
-- internal/report/query.go: the text of the statements, between what depends on the filter.
use buckle.Base.{Bytes, codes, ◌++◌}

abbrev pub command_sql : Bytes
command_sql =
    codes
      "(instr(coalesce((SELECT group_concat(value, ' ') FROM json_each(r.command_json)), ''), ?) > 0\n"
    ++ codes "\t\t\tOR instr(coalesce(r.tag_command, ''), ?) > 0)"

abbrev pub runs_head : Bytes
runs_head =
    codes "SELECT r.id, r.kind, r.status, r.started_at, r.ended_at, r.started_before_watch,\n"
    ++ codes
        "\t\ts.key AS session, r.tag_command, r.command_json, r.profile_source, r.profile_name, r.profile_path,\n"
    ++ codes "\t\tr.parent_run_id,\n"
    ++ codes "\t\t(SELECT count(*) FROM processes p WHERE p.run_id = r.id) AS process_count,\n"
    ++ codes
        "\t\t(SELECT count(*) FROM processes p WHERE p.run_id = r.id AND p.is_platform_binary = 0) AS nonplatform_process_count,\n"
    ++ codes
        "\t\t(SELECT coalesce(sum(d.count), 0) FROM denials d WHERE d.run_id = r.id) AS denial_count\n"
    ++ codes "\t\tFROM runs r LEFT JOIN sessions s ON s.id = r.session_id"

abbrev pub runs_tail : Bytes
runs_tail = codes "\n" ++ codes "\t\tORDER BY r.started_at, r.id"

abbrev pub sessions_head : Bytes
sessions_head =
    codes "SELECT sess.id, sess.kind, sess.key, sess.first_seen, sess.last_seen,\n"
    ++ codes "\t\t(SELECT count(*) FROM ("

abbrev pub sessions_counted : Bytes
sessions_counted =
    codes ")) AS run_count,\n"
    ++ codes "\t\t(SELECT coalesce(sum(d.count), 0) FROM denials d WHERE d.run_id IN ("

abbrev pub sessions_from : Bytes
sessions_from =
    codes ")) AS denial_count\n" ++ codes "\t\tFROM sessions sess\n" ++ codes "\t\tWHERE EXISTS ("

abbrev pub sessions_tail : Bytes
sessions_tail = codes ")\n" ++ codes "\t\tORDER BY sess.first_seen, sess.id"

abbrev pub aggregate_head : Bytes
aggregate_head =
    codes ", sum(d.count) AS total_count, count(DISTINCT d.run_id) AS run_count,\n"
    ++ codes
        "\t\tsum(CASE WHEN p.is_platform_binary = 0 THEN d.count ELSE 0 END) AS nonplatform_count,\n"
    ++ codes "\t\tmin(d.time) AS first_seen, max(d.time) AS last_seen\n"
    ++ codes
        "\t\tFROM denials d JOIN runs r ON r.id = d.run_id JOIN processes p ON p.id = d.process_id\n"
    ++ codes "\t\tLEFT JOIN sessions s ON s.id = r.session_id"
