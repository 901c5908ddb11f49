-- ===== src/RowCollectors/Tables/MssqlSqlStats.antt =====
-- collectSQLStatsInstance of internal/collector/mssql/mssql_sql_stats.go, and the descriptions for
-- it.
use windows_exporter.Base.{List, [], ◌∷◌}
use windows_exporter.RowCollectors.{Desc, Emission, RowCollector, first_row, instance_name}
use windows_exporter.RowCollectors.Calls.{counter, desc}

unfoldable pub descriptions : List Desc
descriptions =
    desc "sqlStatsAutoParamAttempts" "sqlstats_auto_parameterization_attempts"
      ("mssql_instance" ∷ [])
    ∷ desc "sqlStatsBatchRequests" "sqlstats_batch_requests" ("mssql_instance" ∷ [])
    ∷ desc "sqlStatsFailedAutoParams" "sqlstats_failed_auto_parameterization_attempts"
        ("mssql_instance" ∷ [])
    ∷ desc "sqlStatsForcedParameterizations" "sqlstats_forced_parameterizations"
        ("mssql_instance" ∷ [])
    ∷ desc "sqlStatsGuidedplanexecutions" "sqlstats_guided_plan_executions" ("mssql_instance" ∷ [])
    ∷ desc "sqlStatsMisguidedplanexecutions" "sqlstats_misguided_plan_executions"
        ("mssql_instance" ∷ [])
    ∷ desc "sqlStatsSafeAutoParams" "sqlstats_safe_auto_parameterization_attempts"
        ("mssql_instance" ∷ [])
    ∷ desc "sqlStatsSQLAttentionrate" "sqlstats_sql_attentions" ("mssql_instance" ∷ [])
    ∷ desc "sqlStatsSQLCompilations" "sqlstats_sql_compilations" ("mssql_instance" ∷ [])
    ∷ desc "sqlStatsSQLReCompilations" "sqlstats_sql_recompilations" ("mssql_instance" ∷ [])
    ∷ desc "sqlStatsUnsafeAutoParams" "sqlstats_unsafe_auto_parameterization_attempts"
        ("mssql_instance" ∷ [])
    ∷ []

unfoldable pub emissions : List Emission
emissions =
    counter "sqlStatsAutoParamAttempts" "SqlStatsAutoParamAttemptsPerSec" (instance_name ∷ [])
    ∷ counter "sqlStatsBatchRequests" "SqlStatsBatchRequestsPerSec" (instance_name ∷ [])
    ∷ counter "sqlStatsFailedAutoParams" "SqlStatsFailedAutoParamsPerSec" (instance_name ∷ [])
    ∷ counter "sqlStatsForcedParameterizations" "SqlStatsForcedParameterizationsPerSec"
        (instance_name ∷ [])
    ∷ counter "sqlStatsGuidedplanexecutions" "SqlStatsGuidedplanexecutionsPerSec"
        (instance_name ∷ [])
    ∷ counter "sqlStatsMisguidedplanexecutions" "SqlStatsMisguidedplanexecutionsPerSec"
        (instance_name ∷ [])
    ∷ counter "sqlStatsSafeAutoParams" "SqlStatsSafeAutoParamsPerSec" (instance_name ∷ [])
    ∷ counter "sqlStatsSQLAttentionrate" "SqlStatsSQLAttentionrate" (instance_name ∷ [])
    ∷ counter "sqlStatsSQLCompilations" "SqlStatsSQLCompilationsPerSec" (instance_name ∷ [])
    ∷ counter "sqlStatsSQLReCompilations" "SqlStatsSQLReCompilationsPerSec" (instance_name ∷ [])
    ∷ counter "sqlStatsUnsafeAutoParams" "SqlStatsUnsafeAutoParamsPerSec" (instance_name ∷ [])
    ∷ []

unfoldable pub mssql_sql_stats : RowCollector
mssql_sql_stats = record { shape = first_row; descriptions = descriptions; emissions = emissions }
