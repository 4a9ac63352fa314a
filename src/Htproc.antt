-- ===== src/Htproc.antt =====
-- htproc/: the processes of the users. Status has the errors that the parts share, Store the store of
-- processes and Run its loop (procStore.go), Output and Proc a single process (proc.go), Filter the
-- filter of requests (htproc.go).
pub mod Status
pub mod Store
pub mod Run
pub mod Output
pub mod Proc
pub mod Proxy
pub mod Filter
mod Examples
mod ProcExamples
