-- ===== src/Libbinder.antt =====
-- src/lib/binder, the C++ side of the IPC: so far the parcels of Parcel.cpp.
pub mod Parcel
mod Tests
