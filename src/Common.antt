-- ===== src/Common.antt =====
-- cards/js/common.js: conversion to bytes, ids, frame building and the reading cursor.
pub mod Value
pub mod Convert
pub mod Concat
pub mod Ids
pub mod Cursor
pub mod Opcodes
pub mod Fixed
pub mod Cell
pub mod Genome
